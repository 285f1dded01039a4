-- ===== src/Intelligence/Scoring/Scored.antt =====
-- What the answer of the scoring engine holds, and when there is none.
use mathlib.Core.Path.{subst}
use moment_flow.Common.{
  ℤ, ◌+◌, leb, ◌≡◌, refl, sym, ap, ◌∙◌, Bool, true, false, ◌||◌, Option, is_some, List, ◌++◌,
  length, arith, inl, inr, Bool-cases,
}
use moment_flow.Store.Exec.{Error, ok, err}
use moment_flow.Intelligence.{Formats, CampaignDataBundle, CampaignRequest, Warning}
use moment_flow.Intelligence.Moments.{parse_reference_date}
use moment_flow.Intelligence.Moments.Detected.{bit}
use moment_flow.Intelligence.Moments.Reported.{reference_of}
use moment_flow.Intelligence.Scoring.{Floats, Grade, Score, Outcome}
use moment_flow.Intelligence.Scoring.Scores.{has_subject, readiness_score, risk_score}
use moment_flow.Intelligence.Scoring.Blends.{
  priority_shares, standing_shares, grade_of, grade_for, blend,
}
use moment_flow.Intelligence.Scoring.Engine.{
  ScoreSet, ScoringResponse, check_consistency, concluded, validated, score,
}
use moment_flow.Intelligence.Scoring.Outcomes.{
  IsOutcome, IsBounded, readiness-IsOutcome, risk-IsOutcome, momentum-raises, momentum-IsOutcome,
  opportunity-IsOutcome, priority-IsOutcome,
}
use moment_flow.Intelligence.Scoring.Overflow.{
  raises, overflows, raises-overflows, overflows-raises, has_traction_data,
}
use moment_flow.Intelligence.Scoring.Justified.{
  codes_of, warning_codes, explained_codes, warned_codes, IsOutcome-IsJustified, concluded-codes,
}

-- What the engine warns of before it scores.
abbrev pub scoring_warnings : Formats → CampaignRequest → List Warning
scoring_warnings f r =
    (parse_reference_date f r.reference_date).1 ++ check_consistency f r.bundle (reference_of f r)

-- The codes of an answer, by its scores.
abbrev pub IsToldOf : Formats → CampaignRequest → ScoringResponse → Type 0
IsToldOf f r answer =
    (codes_of answer.explanations ≡ explained_codes answer.scores)
    × (warning_codes answer.warnings
        ≡ warning_codes (scoring_warnings f r) ++ warned_codes answer.scores)

module _ {F : Type 0} (x : Floats F) (f : Formats) (r : CampaignRequest) where
  -- The answer before its validation, on the outcomes of the two rules that may raise.
  abbrev pub unchecked : Outcome → Outcome → ScoringResponse
  unchecked momentum opportunity =
      concluded x f r (scoring_warnings f r) (readiness_score x f r.bundle) momentum opportunity
        (risk_score x f r.bundle (reference_of f r))

  pub score_raised :
      overflows x f r.bundle (reference_of f r) ≡ true → score x f r ≡ err Error.overflow_error
  unfolding score
  score_raised h = rw (momentum-raises x f r.bundle (reference_of f r) h) refl

  -- A date without fourteen days before it is one cause.
  pub score_early :
      raises f r.bundle (reference_of f r) ≡ true → score x f r ≡ err Error.overflow_error
  score_early h = score_raised (raises-overflows x f r.bundle (reference_of f r) h)

  pub score-validated :
      overflows x f r.bundle (reference_of f r) ≡ false
      → (momentum opportunity : Outcome) × (score x f r
          ≡ validated x f (unchecked momentum opportunity))
        × (IsOutcome Score.momentum (has_traction_data r.bundle) momentum
            × IsOutcome Score.opportunity (has_subject r.bundle) opportunity)
        × (IsBounded momentum × IsBounded opportunity)
  unfolding score
  score-validated h =
      let (m, em, jm, bm) = momentum-IsOutcome x f r.bundle (reference_of f r) h in
      let (o, eo, jo, bo) =
        opportunity-IsOutcome x f r.bundle (reference_of f r)
          (overflows-raises x f r.bundle (reference_of f r) h) in
      (m, o, rw (em, eo) refl, (jm, jo), (bm, bo))

validated_ok :
    {F : Type 0} (x : Floats F) (f : Formats) (made answer : ScoringResponse)
    → validated x f made ≡ ok answer
    → made ≡ answer
unfolding validated
validated_ok x f made answer h = ground arith

priority_shares-length :
    (a b c d : Option ℤ)
    → length (priority_shares a b c d)
      ≡ bit (is_some a) + bit (is_some b) + bit (is_some c) + bit (is_some d)
unfolding priority_shares
priority_shares-length a b c d = ground arith

-- Whether there is a grade.
abbrev pub is_graded : Grade → Bool
is_graded Grade.grade_unknown = false
is_graded _ = true

grade_for-is_graded : (n : ℤ) → is_graded (grade_for n) ≡ true
unfolding grade_for
grade_for-is_graded n = ground arith

grade_of-is_graded :
    {F : Type 0} (x : Floats F) (f : Formats) (a b c : Option ℤ)
    → is_graded (grade_of x f (standing_shares a b c)).0 ≡ (is_some a || is_some b || is_some c)
unfolding grade_of standing_shares
grade_of-is_graded x f a b c =
    ground (arith, grade_for-is_graded (blend x f (standing_shares a b c)))

-- What a set of scores and a grade have, by what the data holds.
abbrev pub Computes : CampaignDataBundle → ScoreSet → Grade → Type 0
Computes d s grade =
    let campaign = is_some d.campaign in
    let traction = has_traction_data d in
    let at_risk = is_some d.campaign || is_some d.smart_link_stats in
    (is_some s.campaign_readiness_score ≡ campaign)
    × (is_some s.momentum_score ≡ traction)
    × (is_some s.content_opportunity_score ≡ has_subject d)
    × (is_some s.risk_score ≡ at_risk)
    × (is_some s.priority_score
        ≡ leb 2 (bit campaign + bit traction + bit (has_subject d) + bit at_risk))
    × (is_graded grade ≡ (campaign || traction))

unchecked-Computes :
    {F : Type 0} (x : Floats F) (f : Formats) (r : CampaignRequest) (m o : Outcome)
    → IsOutcome Score.momentum (has_traction_data r.bundle) m
    → IsOutcome Score.opportunity (has_subject r.bundle) o
    → Computes r.bundle (unchecked x f r m o).scores (unchecked x f r m o).grade
unchecked-Computes x f r m o jm jo =
    let a = readiness_score x f r.bundle in
    let d = risk_score x f r.bundle (reference_of f r) in
    let ea = (readiness-IsOutcome x f r.bundle).0.0 in
    let ed = (risk-IsOutcome x f r.bundle (reference_of f r)).0.0 in
    (
      ea,
      jm.0,
      jo.0,
      ed,
      (priority-IsOutcome x f (priority_shares a.value m.value o.value d.value)).0
          ∙ ap (leb 2) (
              priority_shares-length a.value m.value o.value d.value
              ∙ rw (ea, jm.0, jo.0, ed) refl),
      grade_of-is_graded x f a.value m.value d.value ∙ rw (ea, jm.0, ed) (ground arith),
    )

module _ {F : Type 0} (x : Floats F) (f : Formats) (r : CampaignRequest)
    (answer : ScoringResponse) where
  answer_of :
      score x f r ≡ ok answer
      → (momentum opportunity : Outcome) × (unchecked x f r momentum opportunity ≡ answer)
        × IsOutcome Score.momentum (has_traction_data r.bundle) momentum
        × IsOutcome Score.opportunity (has_subject r.bundle) opportunity
  answer_of h = elim (Bool-cases (overflows x f r.bundle (reference_of f r))) [
    | inl t ↦ ground (arith, score_raised x f r t)
    | inr n ↦
        let (m, o, e, (jm, jo), _) = score-validated x f r n in
        (m, o, validated_ok x f (unchecked x f r m o) answer (sym e ∙ h), jm, jo)
  ]

  -- Every score of an answer is told of exactly once: the explanations are those of the computed
  -- scores, in order, then that of the grade if readiness, momentum or risk is computed; the warnings
  -- are those of the date and of the consistency checks, then one for each score that is not computed, then one if there
  -- is no grade, then one if there is no score at all.
  pub score-codes : score x f r ≡ ok answer → IsToldOf f r answer
  score-codes h =
      let (m, o, e, jm, jo) = answer_of h in
      subst (λ a. IsToldOf f r a) e
        (concluded-codes x f r (scoring_warnings f r) (readiness_score x f r.bundle) m o
          (risk_score x f r.bundle (reference_of f r))
          (IsOutcome-IsJustified Score.readiness _ _ (readiness-IsOutcome x f r.bundle).0)
          (IsOutcome-IsJustified Score.momentum _ m jm)
          (IsOutcome-IsJustified Score.opportunity _ o jo)
          (IsOutcome-IsJustified Score.risk _ _ (risk-IsOutcome x f r.bundle (reference_of f r)).0))

  -- What an answer computes depends on the presence of the data alone: readiness needs a campaign,
  -- momentum link statistics or content, opportunity any of campaign, track, content, reports and
  -- media kits, risk a campaign or statistics; the priority needs two of these four scores, and the
  -- grade readiness, momentum or risk.
  pub score-Computes : score x f r ≡ ok answer → Computes r.bundle answer.scores answer.grade
  score-Computes h =
      let (m, o, e, jm, jo) = answer_of h in
      subst (λ a. Computes r.bundle a.scores a.grade) e (unchecked-Computes x f r m o jm jo)
