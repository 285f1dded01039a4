-- ===== src/Store/Reverts.antt =====
-- Calls that write nothing where they raise.
use moment_flow.Common.{◌≡◌, arith, inl, inr}
use moment_flow.Store.Exec.{Error, ok, err, Exec, atomic, ◌>>=◌, Result-cases}

pub record Reverts {S A : Type 0} (m : Exec S A) : Type 0 where
  pub reverts : (s : S) (x : Error) → (m s).0 ≡ err x → (m s).1 ≡ s

-- A call that never raises.
pub record Returns {S A : Type 0} (m : Exec S A) : Type 0 where
  pub value : S → A
  pub returns : (s : S) → (m s).0 ≡ ok (value s)

pub atomic-Reverts : {S A : Type 0} (m : Exec S A) → Reverts (atomic m)
atomic-Reverts m = record {
  reverts = λ s x h. elim (Result-cases (m s).0) [
    | inl (a, e) ↦ ground arith
    | inr (y, e) ↦ ground arith
  ];
}

-- After a call that only reads.
pub read-Reverts :
    {S A B : Type 0} (m : Exec S A) {f : A → Exec S B}
    → ((s : S) → (m s).1 ≡ s)
    → ((a : A) → Reverts (f a))
    → Reverts (m >>= f)
read-Reverts m {f = f} reads rest = record {
  reverts = λ s x h. elim (Result-cases (m s).0) [
    | inl (a, e) ↦ ground (arith, reads s, (rest a).reverts s x)
    | inr (y, e) ↦ ground (arith, reads s)
  ];
}

-- Before a call that never raises.
pub then-Returns-Reverts :
    {S A B : Type 0} {m : Exec S A} {f : A → Exec S B}
    → Reverts m
    → ((a : A) → Returns (f a))
    → Reverts (m >>= f)
then-Returns-Reverts {m = m} {f = f} first rest = record {
  reverts = λ s x h. elim (Result-cases (m s).0) [
    | inl (a, e) ↦ ground (arith, (rest a).returns (m s).1)
    | inr (y, e) ↦ ground (arith, first.reverts s y)
  ];
}
