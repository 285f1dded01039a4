-- ===== src/Store/Exec.antt =====
-- A service call over a state: what was written before a raise stays written, unless an `atomic`
-- block rolls it back.
use moment_flow.Common.{arith, ℤ, ◌≡◌, refl, ◌⊎◌, inl, inr, Bool, Text, if◌then◌else◌}

-- The exceptions. `insufficient_credits` carries the amount asked for and the balance,
-- `quota_exceeded` the feature, the plan, the count and the limit, `validation_error` and
-- `transition_error` the field they are reported at.
pub data Error : Type 0 where
  value_error : Error
  integrity_error : Error
  insufficient_credits : ℤ → ℤ → Error
  quota_exceeded : Text → Text → ℤ → ℤ → Error
  validation_error : Text → Error
  transition_error : Text → Error
  does_not_exist : Error
  not_found : Error
  unknown_job_type : Error
  conflict : Error
  retry_not_allowed : Error
  signature_error : Error
  type_error : Error
  invalid_operation : Error
  overflow_error : Error

pub data Result (A : Type 0) : Type 0 where
  ok : A → Result A
  err : Error → Result A

abbrev pub Exec : Type 0 → Type 0 → Type 0
Exec S A = S → Result A × S

module _ {S A : Type 0} where
  abbrev pub pure : A → Exec S A
  pure a s = (ok a, s)

  abbrev pub raise : Error → Exec S A
  raise e s = (err e, s)

  abbrev pub gets : (S → A) → Exec S A
  gets f s = (ok (f s), s)

  -- `with transaction.atomic()`: an exception rolls the block back.
  abbrev pub atomic : Exec S A → Exec S A
  atomic m s = let (r, s') = m s in elim r [ ok a ↦ (ok a, s') | err e ↦ (err e, s) ]

module _ {S : Type 0} where
  abbrev pub raise_if : Bool → Error → Exec S (Unit {0})
  raise_if c e s = (if c then err e else ok tt, s)

  abbrev pub modify : (S → S) → Exec S (Unit {0})
  modify f s = (ok tt, f s)

infixl 5 ◌>>=◌ ◌>>◌
abbrev pub ◌>>=◌ : {S A B : Type 0} → Exec S A → (A → Exec S B) → Exec S B
◌>>=◌ m f s = let (r, s') = m s in elim r [ ok a ↦ f a s' | err e ↦ (err e, s') ]

abbrev pub ◌>>◌ : {S A B : Type 0} → Exec S A → Exec S B → Exec S B
m >> k = m >>= λ _. k

-- A result is a value or an exception, with the equation kept.
pub Result-cases :
    {A : Type 0} (r : Result A) → ((a : A) × (r ≡ ok a)) ⊎ ((e : Error) × (r ≡ err e))
Result-cases (ok a) = inl (a, refl)
Result-cases (err e) = inr (e, refl)

-- A chain that returns has returned from its first call, and from the rest of the chain after it.
pub >>=-eq_ok :
    {S A B : Type 0} (m : Exec S A) (f : A → Exec S B) (s s' : S) (b : B)
    → (m >>= f) s ≡ (ok b, s')
    → (a : A) × ((m s).0 ≡ ok a) × (f a (m s).1 ≡ (ok b, s'))
>>=-eq_ok m f s s' b h = elim (Result-cases (m s).0) [
  | inl (a, e) ↦ (a, e, ground arith)
  | inr (x, e) ↦ ground arith
]

-- A transaction that returns has done what its block did.
pub atomic-eq_ok :
    {S A : Type 0} (m : Exec S A) (s s' : S) (a : A) → atomic m s ≡ (ok a, s') → m s ≡ (ok a, s')
atomic-eq_ok m s s' a h = ground arith
