-- ===== src/Intelligence/Orchestrator/Deduplicated.antt =====
-- What the removal of repeated codes keeps.
use moment_flow.Common.{
  ◌≡◌, refl, ap, ◌∙◌, Bool, true, false, not, List, [], ◌∷◌, map, find?, any, Text, text_eq,
  text_eq_refl, text_eq_iff, arith, inl, inr, Bool-cases,
}
use moment_flow.Intelligence.Orchestrator.{dedup_after, dedup_by_code}

-- Whether a text is among others, and whether none is repeated.
abbrev pub is_among : Text → List Text → Bool
is_among t ts = any (text_eq t) ts

abbrev pub IsDistinct : List Text → Type 0
IsDistinct [] = Unit {0}
IsDistinct (t ∷ ts) = (is_among t ts ≡ false) × IsDistinct ts

-- A text among others, by an equal of it.
among-equal : (s t : Text) (ts : List Text) → text_eq s t ≡ true → is_among s ts ≡ is_among t ts
among-equal s t ts h = ap (λ u. is_among u ts) ((text_eq_iff s t).0 h)

-- Of two texts, one is among some others: they differ.
among-apart :
    (s t : Text) (ts : List Text) → (is_among s ts ≡ not (is_among t ts)) → text_eq s t ≡ false
among-apart s t ts h = elim (Bool-cases (text_eq s t)) [
  | inl e ↦ ground (arith, among-equal s t ts e)
  | inr n ↦ n
]

module _ {A : Type 0} (code : A → Text) where
  -- What was seen before does not come again.
  dedup-seen :
      (t : Text) (seen : List Text) (items : List A)
      → is_among t seen ≡ true
      → is_among t (map code (dedup_after code seen items)) ≡ false
  unfolding dedup_after
  dedup-seen t seen [] h = refl
  dedup-seen t seen (item ∷ items) h = elim (Bool-cases (is_among (code item) seen)) [
    | inl old ↦ rw old (dedup-seen t seen items h)
    | inr new ↦
        rw (new, among-apart t (code item) seen (h ∙ rw new refl))
          (dedup-seen t (code item ∷ seen) items
            (rw (among-apart t (code item) seen (h ∙ rw new refl)) h))
  ]

  dedup-IsDistinct :
      (seen : List Text) (items : List A) → IsDistinct (map code (dedup_after code seen items))
  unfolding dedup_after
  dedup-IsDistinct seen [] = tt
  dedup-IsDistinct seen (item ∷ items) = elim (Bool-cases (is_among (code item) seen)) [
    | inl old ↦ rw old (dedup-IsDistinct seen items)
    | inr new ↦ rw new (
      dedup-seen (code item) (code item ∷ seen) items (rw (text_eq_refl (code item)) refl),
      dedup-IsDistinct (code item ∷ seen) items,
    )
  ]

  -- The first of a code that was not seen before stays.
  find?-dedup :
      (t : Text) (seen : List Text) (items : List A)
      → is_among t seen ≡ false
      → find? (λ a. text_eq t (code a)) (dedup_after code seen items)
        ≡ find? (λ a. text_eq t (code a)) items
  unfolding dedup_after
  find?-dedup t seen [] h = refl
  find?-dedup t seen (item ∷ items) h = elim (Bool-cases (is_among (code item) seen)) [
    | inl old ↦
        rw (old, among-apart t (code item) seen (h ∙ rw old refl)) (find?-dedup t seen items h)
    | inr new ↦ elim (Bool-cases (text_eq t (code item))) [
      | inl is ↦ rw (new, is) refl
      | inr other ↦ rw (new, other) (find?-dedup t (code item ∷ seen) items (rw other h))
    ]
  ]

  pub dedup_by_code-IsDistinct : (items : List A) → IsDistinct (map code (dedup_by_code code items))
  dedup_by_code-IsDistinct items = dedup-IsDistinct [] items

  pub find?-dedup_by_code :
      (t : Text) (items : List A)
      → find? (λ a. text_eq t (code a)) (dedup_by_code code items)
        ≡ find? (λ a. text_eq t (code a)) items
  find?-dedup_by_code t items = find?-dedup t [] items refl
