-- ===== src/Intelligence/Sorting.antt =====
-- Python's `sorted`: a stable sort by the order of a key. A response lists its moments, and its
-- recommendations, by rank, then by the higher confidence, then by name.
use mathlib.Core.Path.{subst}
use moment_flow.Common.{
  ℕ, ◌+◌, ◌==◌, ltb, ◌≡◌, refl, ap, ◌∙◌, Bool, true, false, List, [], ◌∷◌, Text, arith, Bool-cases,
  inl, inr, if◌then◌else◌,
}
use moment_flow.Intelligence.{Severity}

-- `_SEVERITY_RANK`, `_PRIORITY_RANK`
unfoldable pub severity_rank : Severity → ℕ
severity_rank Severity.high = 0
severity_rank Severity.medium = 1
severity_rank Severity.low = 2

-- The order of texts, by code point.
unfoldable pub leb_text : Text → Text → Bool
leb_text [] t = true
leb_text (c ∷ s) [] = false
leb_text (c ∷ s) (d ∷ t) = if c == d then leb_text s t else ltb c d

leb_text_total : (s t : Text) → leb_text s t ≡ false → leb_text t s ≡ true
unfolding leb_text
leb_text_total [] t h = ground arith
leb_text_total (c ∷ s) [] h = refl
leb_text_total (c ∷ s) (d ∷ t) h = ground (arith, leb_text_total s t)

-- The order of the keys.
unfoldable pub key_at_most : Severity → ℕ → Text → Severity → ℕ → Text → Bool
key_at_most rank confidence name rank' confidence' name' =
    if severity_rank rank == severity_rank rank'
    then if confidence == confidence' then leb_text name name' else ltb confidence' confidence
    else ltb (severity_rank rank) (severity_rank rank')

pub key_at_most_total :
    (a : Severity) (b : ℕ) (c : Text) (a' : Severity) (b' : ℕ) (c' : Text)
    → key_at_most a b c a' b' c' ≡ false
    → key_at_most a' b' c' a b c ≡ true
unfolding key_at_most
key_at_most_total a b c a' b' c' h = ground (arith, leb_text_total c c')

abbrev pub count : {A : Type 0} → (A → Bool) → List A → ℕ
count p [] = 0
count p (a ∷ as') = (if p a then 1 else 0) + count p as'

module _ {A : Type 0} (at_most : A → A → Bool) where
  -- An element goes before its equals.
  unfoldable pub insert_by : A → List A → List A
  insert_by a [] = a ∷ []
  insert_by a (b ∷ bs) = let rest = insert_by a bs in if at_most a b then a ∷ b ∷ bs else b ∷ rest

  unfoldable pub sort_by : List A → List A
  sort_by [] = []
  sort_by (a ∷ bs) = insert_by a (sort_by bs)

  -- Each element is at most the next.
  abbrev pub IsSorted : List A → Type 0
  IsSorted [] = Unit {0}
  IsSorted (a ∷ []) = Unit {0}
  IsSorted (a ∷ b ∷ bs) = (at_most a b ≡ true) × IsSorted (b ∷ bs)

  insert-count :
      (p : A → Bool) (a : A) (bs : List A)
      → count p (insert_by a bs) ≡ (if p a then 1 else 0) + count p bs
  unfolding insert_by
  insert-count p a [] = refl
  insert-count p a (b ∷ bs) = ground (arith, insert-count p a bs)

  pub sort-count : (p : A → Bool) (bs : List A) → count p (sort_by bs) ≡ count p bs
  unfolding sort_by
  sort-count p [] = refl
  sort-count p (b ∷ bs) =
      insert-count p b (sort_by bs) ∙ ap (λ n. (if p b then 1 else 0) + n) (sort-count p bs)

module _ {A : Type 0} (at_most : A → A → Bool)
    (total : (a b : A) → at_most a b ≡ false → at_most b a ≡ true) where
  -- What goes in after the head is at least the head.
  insert-below :
      (m n k : A) (ks : List A)
      → at_most n m ≡ true
      → IsSorted at_most (n ∷ k ∷ ks)
      → IsSorted at_most (insert_by at_most m (k ∷ ks))
      → IsSorted at_most (n ∷ insert_by at_most m (k ∷ ks))
  unfolding insert_by
  insert-below m n k ks nm h rest = elim (Bool-cases (at_most m k)) [
    | inl t ↦ rw t (nm, (t, h.1))
    | inr f ↦ rw f (
      h.0,
      subst (λ b. IsSorted at_most (if b then m ∷ k ∷ ks else k ∷ insert_by at_most m ks)) f rest,
    )
  ]

  insert-IsSorted :
      (m : A) (ms : List A) → IsSorted at_most ms → IsSorted at_most (insert_by at_most m ms)
  unfolding insert_by
  insert-IsSorted m [] h = tt
  insert-IsSorted m (n ∷ []) h = elim (Bool-cases (at_most m n)) [
    | inl t ↦ rw t (t, tt)
    | inr f ↦ rw f (total m n f, tt)
  ]
  insert-IsSorted m (n ∷ k ∷ ks) h = elim (Bool-cases (at_most m n)) [
    | inl t ↦ rw t (t, h)
    | inr f ↦ rw f (insert-below m n k ks (total m n f) h (insert-IsSorted m (k ∷ ks) h.1))
  ]

  pub sort-IsSorted : (ms : List A) → IsSorted at_most (sort_by at_most ms)
  unfolding sort_by
  sort-IsSorted [] = tt
  sort-IsSorted (m ∷ ms) = insert-IsSorted m (sort_by at_most ms) (sort-IsSorted ms)
