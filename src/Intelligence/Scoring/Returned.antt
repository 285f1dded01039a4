-- ===== src/Intelligence/Scoring/Returned.antt =====
-- Which requests the scoring engine answers, and how it refuses the others.
use moment_flow.Intelligence.Scoring.Scored.{unchecked, score_raised, score-validated}
use moment_flow.Common.{
  ℤ, leb, ◌≡◌, refl, ◌∙◌, Bool, true, false, ◌&&◌, Option, some, List, length, str, arith, ◌⊎◌, inl,
  inr, Bool-cases,
}
use moment_flow.Store.Exec.{Error, ok, err}
use moment_flow.Intelligence.{Formats, CampaignRequest}
use moment_flow.Intelligence.Moments.Reported.{reference_of}
use moment_flow.Intelligence.Scoring.{Floats, Outcome}
use moment_flow.Intelligence.Scoring.Scores.{readiness_score, risk_score}
use moment_flow.Intelligence.Scoring.Blends.{Share, priority_of, priority_shares, blend}
use moment_flow.Intelligence.Scoring.Engine.{
  ScoringResponse, validated, score, is_valid_score_set, in_range,
}
use moment_flow.Intelligence.Scoring.Outcomes.{IsBounded, readiness-IsOutcome, risk-IsOutcome}
use moment_flow.Intelligence.Scoring.Overflow.{overflows}

-- A priority is refused: it is blended from at least two scores within 0 and 100, and is not.
abbrev pub IsRefused : {F : Type 0} → Floats F → Formats → CampaignRequest → Type 0
IsRefused x f r =
    (a b c d : Option ℤ) × (in_range a && in_range b && in_range c && in_range d ≡ true)
    × (leb 2 (length (priority_shares a b c d)) ≡ true)
    × (in_range (some (blend x f (priority_shares a b c d))) ≡ false)
    × (score x f r ≡ err (Error.validation_error (str "scores")))

-- What the range check refuses is the priority.
priority_refused :
    {F : Type 0} (x : Floats F) (f : Formats) (shares : List Share)
    → in_range (priority_of x f shares).value ≡ false
    → (leb 2 (length shares) ≡ true) × (in_range (some (blend x f shares)) ≡ false)
unfolding priority_of
priority_refused x f shares h = elim (Bool-cases (leb 2 (length shares))) [
  | inl t ↦ (t, ground arith)
  | inr n ↦ ground arith
]

refused_last :
    (a b c d e : Bool)
    → a ≡ true
    → b ≡ true
    → c ≡ true
    → d ≡ true
    → (a && b && c && d && e) ≡ false
    → ((a && b && c && d) ≡ true) × (e ≡ false)
refused_last a b c d e ha hb hc hd h = ground arith

module _ {F : Type 0} (x : Floats F) (f : Formats) (r : CampaignRequest) where
  validated-returns :
      (m o : Outcome)
      → score x f r ≡ validated x f (unchecked x f r m o)
      → IsBounded m
      → IsBounded o
      → ((answer : ScoringResponse) × (score x f r ≡ ok answer)) ⊎ IsRefused x f r
  unfolding validated is_valid_score_set
  validated-returns m o e bm bo =
      elim (Bool-cases (is_valid_score_set (unchecked x f r m o).scores)) [
        | inl valid ↦ inl (unchecked x f r m o, e ∙ rw (valid, validated) refl)
        | inr invalid ↦
            let a = readiness_score x f r.bundle in
            let d = risk_score x f r.bundle (reference_of f r) in
            let shares = priority_shares a.value m.value o.value d.value in
            let (within, out) =
              refused_last (in_range a.value) (in_range m.value) (in_range o.value)
                (in_range d.value) (in_range (priority_of x f shares).value)
                (readiness-IsOutcome x f r.bundle).1 bm bo
                (risk-IsOutcome x f r.bundle (reference_of f r)).1 invalid in
            let (enough, refused) = priority_refused x f shares out in
            inr (
              a.value,
              m.value,
              o.value,
              d.value,
              within,
              enough,
              refused,
              e ∙ rw (invalid, validated) refl,
            )
      ]

module _ {F : Type 0} (x : Floats F) (f : Formats) (r : CampaignRequest) where
  -- The engine raises an overflow exactly where a click counter is too large to be divided as a
  -- `float`, or there is completed content and either the reference date is among the first fourteen
  -- days of the calendar or the number of recent outputs is too large in that way. It answers every
  -- other request, or refuses a priority, blended from at least two scores within 0 and 100, that is
  -- rounded out of 0 and 100.
  pub score_returns :
      ((overflows x f r.bundle (reference_of f r) ≡ true)
        × (score x f r ≡ err Error.overflow_error))
      ⊎ ((overflows x f r.bundle (reference_of f r) ≡ false)
          × (((answer : ScoringResponse) × (score x f r ≡ ok answer)) ⊎ IsRefused x f r))
  score_returns = elim (Bool-cases (overflows x f r.bundle (reference_of f r))) [
    | inl t ↦ inl (t, score_raised x f r t)
    | inr n ↦
        let (m, o, e, _, (bm, bo)) = score-validated x f r n in
        inr (n, validated-returns x f r m o e bm bo)
  ]
