-- ===== src/Intelligence/Scoring/Justified.antt =====
-- Every score is told of once: by an explanation where it is computed, by a warning where it is not.
use mathlib.Core.List.{append-nil, append_assoc, map-append}
use moment_flow.Common.{
  ℤ, ◌≡◌, refl, sym, ap, ◌∙◌, Bool, true, false, ◌||◌, not, Option, is_some, List, [], ◌∷◌, ◌++◌,
  map, select, Text, str, arith, if◌then◌else◌,
}
use moment_flow.Intelligence.{Formats, CampaignRequest, Explanation, Warning}
use moment_flow.Intelligence.Scoring.{Floats, Score, Outcome, code_of}
use moment_flow.Intelligence.Scoring.Blends.{priority_shares, standing_shares, grade_of}
use moment_flow.Intelligence.Scoring.Engine.{
  ScoreSet, Tally, listed, collect, has_no_score, tally_of, score_set, no_score_warnings,
  priority_for, concluded,
}
use moment_flow.Intelligence.Scoring.Outcomes.{IsOutcome, missing_code, priority-IsOutcome}

-- A score of a set, and the scores in the order in which they are told of.
abbrev pub value_of : ScoreSet → Score → Option ℤ
value_of s Score.readiness = s.campaign_readiness_score
value_of s Score.momentum = s.momentum_score
value_of s Score.opportunity = s.content_opportunity_score
value_of s Score.risk = s.risk_score
value_of s Score.priority = s.priority_score

abbrev pub all_scores : List Score
all_scores = Score.readiness ∷ Score.momentum ∷ Score.opportunity ∷ Score.risk ∷ Score.priority ∷ []

abbrev pub is_computed : ScoreSet → Score → Bool
is_computed s score = is_some (value_of s score)

-- Whether there is a score that the grade is made of.
abbrev pub has_standing : ScoreSet → Bool
has_standing s =
    is_some s.campaign_readiness_score || is_some s.momentum_score || is_some s.risk_score

-- The codes of the explanations that a set of scores calls for.
abbrev pub explained_codes : ScoreSet → List Text
explained_codes s =
    map code_of (select (is_computed s) all_scores)
    ++ (if has_standing s then str "grade" ∷ [] else [])

-- The codes of the warnings that it calls for.
abbrev pub warned_codes : ScoreSet → List Text
warned_codes s =
    map missing_code (select (λ score. not (is_computed s score)) all_scores)
    ++ ((if has_standing s then [] else str "grade_unknown" ∷ [])
        ++ (if has_no_score s then str "insufficient_data" ∷ [] else []))

abbrev pub codes_of : List Explanation → List Text
codes_of = map (λ e. e.code)

abbrev pub warning_codes : List Warning → List Text
warning_codes = map (λ w. w.code)

-- An outcome that tells of its score once.
abbrev pub IsJustified : Score → Outcome → Type 0
IsJustified s o = IsOutcome s (is_some o.value) o

pub IsOutcome-IsJustified :
    (s : Score) (computed : Bool) (o : Outcome) → IsOutcome s computed o → IsJustified s o
IsOutcome-IsJustified s computed o h = rw h.0 (refl, h.1, h.2)

-- The outcomes of some scores, told of in their order.
abbrev collect_all : (Score → Outcome) → List Score → Tally → Tally
collect_all o [] t = t
collect_all o (s ∷ ss) t = collect_all o ss (collect (o s) t)

flip : (b : Bool) (t : Text) → (if b then [] else t ∷ []) ≡ (if not b then t ∷ [] else [])
flip true t = refl
flip false t = refl

-- A list that grows by what each score adds when the test holds.
append-select :
    (before : List Text) (g : Score → Text) (p : Score → Bool) (s : Score) (ss : List Score)
    → (before ++ (if p s then g s ∷ [] else [])) ++ map g (select p ss)
      ≡ before ++ map g (select p (s ∷ ss))
append-select before g p s ss =
    append_assoc before (if p s then g s ∷ [] else []) (map g (select p ss))
    ∙ ap (λ ts. before ++ ts) (ground arith)

collect-explanations :
    (o : Outcome) (t : Tally) (codes : List Text)
    → codes_of (listed o.explanation) ≡ codes
    → codes_of (collect o t).explanations ≡ codes_of t.explanations ++ codes
unfolding collect
collect-explanations o t codes h =
    map-append (λ e. e.code) t.explanations (listed o.explanation)
    ∙ ap (λ ts. codes_of t.explanations ++ ts) h

collect-warnings :
    (o : Outcome) (t : Tally) (codes : List Text)
    → warning_codes (listed o.warning) ≡ codes
    → warning_codes (collect o t).warnings ≡ warning_codes t.warnings ++ codes
unfolding collect
collect-warnings o t codes h =
    map-append (λ w. w.code) t.warnings (listed o.warning)
    ∙ ap (λ ts. warning_codes t.warnings ++ ts) h

module _ (o : Score → Outcome) (justified : (s : Score) → IsJustified s (o s)) where
  collect_all-explanations :
      (ss : List Score) (t : Tally)
      → codes_of (collect_all o ss t).explanations
        ≡ codes_of t.explanations ++ map code_of (select (λ s. is_some (o s).value) ss)
  collect_all-explanations [] t = sym (append-nil (codes_of t.explanations))
  collect_all-explanations (s ∷ ss) t =
      collect_all-explanations ss (collect (o s) t)
      ∙ ap (λ ts. ts ++ map code_of (select (λ s'. is_some (o s').value) ss))
          (collect-explanations (o s) t _ (justified s).1)
      ∙ append-select (codes_of t.explanations) code_of (λ s'. is_some (o s').value) s ss

  collect_all-warnings :
      (ss : List Score) (t : Tally)
      → warning_codes (collect_all o ss t).warnings
        ≡ warning_codes t.warnings ++ map missing_code (select (λ s. not (is_some (o s).value)) ss)
  collect_all-warnings [] t = sym (append-nil (warning_codes t.warnings))
  collect_all-warnings (s ∷ ss) t =
      collect_all-warnings ss (collect (o s) t)
      ∙ ap (λ ts. ts ++ map missing_code (select (λ s'. not (is_some (o s').value)) ss))
          (collect-warnings (o s) t _
            ((justified s).2 ∙ flip (is_some (o s).value) (missing_code s)))
      ∙ append-select (warning_codes t.warnings) missing_code (λ s'. not (is_some (o s').value)) s
          ss

-- The five outcomes by their scores.
abbrev outcome_of : Outcome → Outcome → Outcome → Outcome → Outcome → Score → Outcome
outcome_of readiness momentum opportunity risk priority Score.readiness = readiness
outcome_of readiness momentum opportunity risk priority Score.momentum = momentum
outcome_of readiness momentum opportunity risk priority Score.opportunity = opportunity
outcome_of readiness momentum opportunity risk priority Score.risk = risk
outcome_of readiness momentum opportunity risk priority Score.priority = priority

all-IsJustified :
    (o : Score → Outcome)
    → IsJustified Score.readiness (o Score.readiness)
    → IsJustified Score.momentum (o Score.momentum)
    → IsJustified Score.opportunity (o Score.opportunity)
    → IsJustified Score.risk (o Score.risk)
    → IsJustified Score.priority (o Score.priority)
    → (s : Score) → IsJustified s (o s)
all-IsJustified o a b c d e Score.readiness = a
all-IsJustified o a b c d e Score.momentum = b
all-IsJustified o a b c d e Score.opportunity = c
all-IsJustified o a b c d e Score.risk = d
all-IsJustified o a b c d e Score.priority = e

module _ {F : Type 0} (x : Floats F) (f : Formats) where
  -- What the grade is told of.
  graded-codes :
      (a b c : Option ℤ)
      → (codes_of (grade_of x f (standing_shares a b c)).1
          ≡ (if is_some a || is_some b || is_some c then str "grade" ∷ [] else []))
        × (warning_codes (grade_of x f (standing_shares a b c)).2
            ≡ (if is_some a || is_some b || is_some c then [] else str "grade_unknown" ∷ []))
  unfolding grade_of standing_shares
  graded-codes a b c = ground arith

  no_score-codes :
      (s : ScoreSet)
      → warning_codes (no_score_warnings s)
        ≡ (if has_no_score s then str "insufficient_data" ∷ [] else [])
  no_score-codes s = ground arith

  pub concluded-codes :
      (r : CampaignRequest) (warnings : List Warning) (a b c d : Outcome)
      → IsJustified Score.readiness a
      → IsJustified Score.momentum b
      → IsJustified Score.opportunity c
      → IsJustified Score.risk d
      → (codes_of (concluded x f r warnings a b c d).explanations
          ≡ explained_codes (concluded x f r warnings a b c d).scores)
        × (warning_codes (concluded x f r warnings a b c d).warnings
            ≡ warning_codes warnings ++ warned_codes (concluded x f r warnings a b c d).scores)
  concluded-codes r warnings a b c d ja jb jc jd =
      let e = priority_for x f a b c d in
      let justified = all-IsJustified (outcome_of a b c d e) ja jb jc jd (
        IsOutcome-IsJustified _ _ e
          (priority-IsOutcome x f (priority_shares a.value b.value c.value d.value))) in
      let start : Tally = record { explanations = []; warnings = warnings } in
      let scores = score_set x f a b c d e in
      let computed = map code_of (select (is_computed scores) all_scores) in
      let missing = map missing_code (select (λ s. not (is_computed scores s)) all_scores) in
      let graded = grade_of x f (standing_shares a.value b.value d.value) in
      let (ge, gw) = graded-codes a.value b.value d.value in
      let last = graded.2 ++ no_score_warnings scores in
      (
        map-append (λ e. e.code) (tally_of x f warnings a b c d e).explanations graded.1
            ∙ ap (λ ts. ts ++ codes_of graded.1)
                (collect_all-explanations (outcome_of a b c d e) justified all_scores start)
            ∙ ap (λ ts. computed ++ ts) ge,
        map-append (λ w. w.code) (tally_of x f warnings a b c d e).warnings last
            ∙ ap (λ ts. ts ++ warning_codes last)
                (collect_all-warnings (outcome_of a b c d e) justified all_scores start)
            ∙ append_assoc (warning_codes warnings) missing (warning_codes last)
            ∙ ap (λ ts. warning_codes warnings ++ (missing ++ ts))
                (map-append (λ w. w.code) graded.2 (no_score_warnings scores)
                  ∙ ap (λ ts. ts ++ warning_codes (no_score_warnings scores)) gw
                  ∙ ap (λ ts. (if has_standing scores then [] else str "grade_unknown" ∷ []) ++ ts)
                      (no_score-codes scores)),
      )
