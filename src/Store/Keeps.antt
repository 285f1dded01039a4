-- ===== src/Store/Keeps.antt =====
-- What a service call leaves alone: a part of the state that it keeps, and a property of a part that
-- it preserves. Both pass through a chain of calls; `search` applies the rules.
use mathlib.Core.Path.{subst}
use moment_flow.Common.{◌≡◌, refl, sym, ◌∙◌, Bool, true, false, inl, inr, if◌then◌else◌}
use moment_flow.Store.Exec.{Exec, pure, modify, atomic, ◌>>=◌, ◌>>◌, Result-cases}

-- The part of the state that `field` shows is the same after the call.
pub record Keeps {S A F : Type 0} (field : S → F) (m : Exec S A) : Type 0 where
  pub keeps : (s : S) → field (m s).1 ≡ field s

-- The property of that part is preserved, whether the call returns or raises.
pub record Preserves {S A F : Type 0} (field : S → F) (P : F → Type 0) (m : Exec S A) : Type 0 where
  pub preserves : (s : S) → P (field s) → P (field (m s).1)

module _ {S F : Type 0} {field : S → F} where
  pub pure-Keeps : {A : Type 0} (a : A) → Keeps field (pure a)
  pure-Keeps a = record { keeps = λ s. refl }

  pub modify-Keeps : (f : S → S) → ((s : S) → field (f s) ≡ field s) → Keeps field (modify f)
  modify-Keeps f h = record { keeps = h }

  pub bind-Keeps :
      {A B : Type 0} {m : Exec S A} {f : A → Exec S B}
      → Keeps field m
      → ((a : A) → Keeps field (f a))
      → Keeps field (m >>= f)
  bind-Keeps {m = m} {f = f} hm hf = record {
    keeps = λ s. elim (Result-cases (m s).0) [
      | inl (a, e) ↦ rw (e, ◌>>=◌) ((hf a).keeps (m s).1 ∙ hm.keeps s)
      | inr (x, e) ↦ rw (e, ◌>>=◌) (hm.keeps s)
    ];
  }

  pub then-Keeps :
      {A B : Type 0} {m : Exec S A} {n : Exec S B}
      → Keeps field m
      → Keeps field n
      → Keeps field (m >> n)
  then-Keeps hm hn = bind-Keeps hm (λ a. hn)

  pub if-Keeps :
      {A : Type 0} {m n : Exec S A} (b : Bool)
      → Keeps field m
      → Keeps field n
      → Keeps field (if b then m else n)
  if-Keeps true hm hn = hm
  if-Keeps false hm hn = hn

  pub atomic-Keeps : {A : Type 0} {m : Exec S A} → Keeps field m → Keeps field (atomic m)
  atomic-Keeps {m = m} h = record {
    keeps = λ s. elim (Result-cases (m s).0) [
      | inl (a, e) ↦ rw (e, atomic) (h.keeps s)
      | inr (x, e) ↦ rw (e, atomic) refl
    ];
  }

  pub Keeps-Preserves :
      {A : Type 0} {m : Exec S A} (P : F → Type 0) → Keeps field m → Preserves field P m
  Keeps-Preserves P h = record { preserves = λ s p. subst P (sym (h.keeps s)) p }

module _ {S F : Type 0} {field : S → F} {P : F → Type 0} where
  pub bind-Preserves :
      {A B : Type 0} {m : Exec S A} {f : A → Exec S B}
      → Preserves field P m
      → ((a : A) → Preserves field P (f a))
      → Preserves field P (m >>= f)
  bind-Preserves {m = m} {f = f} hm hf = record {
    preserves = λ s p. elim (Result-cases (m s).0) [
      | inl (a, e) ↦ rw (e, ◌>>=◌) ((hf a).preserves (m s).1 (hm.preserves s p))
      | inr (x, e) ↦ rw (e, ◌>>=◌) (hm.preserves s p)
    ];
  }

  pub then-Preserves :
      {A B : Type 0} {m : Exec S A} {n : Exec S B}
      → Preserves field P m
      → Preserves field P n
      → Preserves field P (m >> n)
  then-Preserves hm hn = bind-Preserves hm (λ a. hn)

  pub atomic-Preserves :
      {A : Type 0} {m : Exec S A} → Preserves field P m → Preserves field P (atomic m)
  atomic-Preserves {m = m} h = record {
    preserves = λ s p. elim (Result-cases (m s).0) [
      | inl (a, e) ↦ rw (e, atomic) (h.preserves s p)
      | inr (x, e) ↦ rw (e, atomic) p
    ];
  }

  pub if-Preserves :
      {A : Type 0} {m n : Exec S A} (b : Bool)
      → Preserves field P m
      → Preserves field P n
      → Preserves field P (if b then m else n)
  if-Preserves true hm hn = hm
  if-Preserves false hm hn = hn

pub ruleset keeps_rules = (pure-Keeps, bind-Keeps, then-Keeps, if-Keeps)
