-- ===== src/Content/Rebuilt.antt =====
-- The mapping of the outputs by their key, as it is rebuilt from the table (content/callbacks.py):
-- what it holds under a key.
use moment_flow.Common.{
  ℕ, ◌==◌, ==_refl, ◌≡◌, refl, ap, ◌∙◌, ◌⊎◌, inl, inr, Bool, true, false, Option, none, some, List,
  [], ◌∷◌, Text, text_eq, text_eq_iff, or_else, update_where, arith, Option-cases, if◌then◌else◌,
}
use moment_flow.Store.Content.{Output}
use moment_flow.Content.Outputs.{
  Keyed, find_key, put_key, external_key, index_output, existing_outputs,
}

abbrev pub is_key : Text → Option Text → Bool
is_key key none = false
is_key key (some k) = text_eq k key

-- The row belongs to the request and has the key.
abbrev pub is_keyed : ℕ → Text → Output → Bool
is_keyed request key o =
    if o.content_pack_request == request then is_key key (external_key o.metadata) else false

-- The last such row.
pub find_last : ℕ → Text → List Output → Option Output
find_last request key [] = none
find_last request key (o ∷ os) =
    or_else (find_last request key os) (if is_keyed request key o then some o else none)

find_key-put :
    (key k : Text) (o : Output) (m : Keyed)
    → find_key key (put_key k o m) ≡ (if text_eq k key then some o else find_key key m)
unfolding find_key put_key
find_key-put key k o [] = refl
find_key-put key k o ((j, p) ∷ m) =
    ground (arith, find_key-put key k o m, text_eq_iff j k, text_eq_iff j key, text_eq_iff k key)

find_key-index :
    (request : ℕ) (key : Text) (o : Output) (m : Keyed)
    → find_key key (if o.content_pack_request == request then index_output o m else m)
      ≡ or_else (if is_keyed request key o then some o else none) (find_key key m)
find_key-index request key o m = elim (Option-cases (external_key o.metadata)) [
  | inl e ↦ ground arith
  | inr (k, e) ↦ ground (arith, find_key-put key k o m)
]

or_else_assoc : (a b c : Option Output) → or_else a (or_else b c) ≡ or_else (or_else a b) c
or_else_assoc none b c = refl
or_else_assoc (some a) b c = refl

find_key-existing :
    (request : ℕ) (key : Text) (os : List Output) (m : Keyed)
    → find_key key (existing_outputs request os m)
      ≡ or_else (find_last request key os) (find_key key m)
unfolding existing_outputs find_last
find_key-existing request key [] m = refl
find_key-existing request key (o ∷ os) m =
    find_key-existing request key os _
    ∙ ap (or_else (find_last request key os)) (find_key-index request key o m)
    ∙ or_else_assoc (find_last request key os) _ (find_key key m)

or_else-none : (a : Option Output) → or_else a none ≡ a
or_else-none none = refl
or_else-none (some a) = refl

-- What the mapping that is rebuilt from the table holds.
pub find_key-rebuilt :
    (request : ℕ) (key : Text) (os : List Output)
    → find_key key (existing_outputs request os []) ≡ find_last request key os
unfolding find_key
find_key-rebuilt request key os = find_key-existing request key os [] ∙ or_else-none _

abbrev pub replaced : Output → List Output → List Output
replaced out os = update_where (λ r. r.id == out.id) (λ _. out) os

module _ (request : ℕ) (key : Text) (out : Output) where
  replaced-absent :
      (os : List Output)
      → find_last request key os ≡ none
      → (find_last request key (replaced out os) ≡ none)
        ⊎ (find_last request key (replaced out os) ≡ some out)
  unfolding find_last
  replaced-absent [] h = inl refl
  replaced-absent (o ∷ os) h = ground (arith, replaced-absent os)

  -- The row that replaces the last one with the key is the last one with it.
  pub replaced-last :
      (os : List Output) (old : Output)
      → find_last request key os ≡ some old
      → out.id ≡ old.id
      → is_keyed request key out ≡ true
      → find_last request key (replaced out os) ≡ some out
  unfolding find_last
  replaced-last [] old h same keyed = ground arith
  replaced-last (o ∷ os) old h same keyed = elim (Option-cases (find_last request key os)) [
    | inl e ↦ ground (arith, replaced-absent os, ==_refl out.id)
    | inr (x, e) ↦ ground (arith, replaced-last os old)
  ]

  pub last-keyed :
      (os : List Output) (old : Output)
      → find_last request key os ≡ some old
      → is_keyed request key old ≡ true
  unfolding find_last
  last-keyed [] old h = ground arith
  last-keyed (o ∷ os) old h = ground (arith, last-keyed os old)

pub pushed-last :
    (request : ℕ) (key : Text) (row : Output) (os : List Output)
    → find_last request key os ≡ none
    → is_keyed request key row ≡ true
    → find_last request key (row ∷ os) ≡ some row
unfolding find_last
pushed-last request key row os h keyed = rw (h, keyed) refl
