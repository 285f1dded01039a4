-- ===== src/Intelligence/Scoring.antt =====
-- The scoring engine's numbers and what each score is made of
-- (intelligence_engine/app/services/scoring_engine.py), on the predicates of the moment detector.
pub mod Scores
pub mod Blends
pub mod Engine
pub mod Overflow
pub mod Outcomes
pub mod Justified
pub mod Scored
pub mod Returned
use moment_flow.Common.{
  ℕ, ltb, ◌==◌, ℤ, pos, negsuc, pos_part, neg_part, ltb_ℤ, Bool, true, false, Option, none, some,
  List, [], ◌∷◌, ◌++◌, map, Text, str, suc, if◌then◌else◌,
}
use moment_flow.Store.Exec.{Error, Result, ok, err}
use moment_flow.Intelligence.{Formats, Explanation, explanation, Warning}

-- Python's floating-point numbers, as the engine uses them: a constant in hundredths, `float(n)`,
-- the sum of a list, `a / b` on counts, which raises where no `float` can hold the quotient, `round`,
-- and `:.2f`.
pub record Floats (F : Type 0) : Type 0 where
  pub hundredths : ℕ → F
  pub of_int : ℤ → F
  pub multiply : F → F → F
  pub total : List F → F
  pub ratio : ℕ → ℕ → Option F
  pub divide : F → F → F
  pub less : F → F → Bool
  pub round : F → ℤ
  pub fixed_2 : F → Text

-- `min(a, b)`, which keeps the first of two that are equal, and `max(a, b)`
abbrev pub min_ℤ : ℤ → ℤ → ℤ
min_ℤ a b = if ltb_ℤ b a then b else a

abbrev pub max_ℤ : ℤ → ℤ → ℤ
max_ℤ a b = if ltb_ℤ a b then b else a

-- `str(n)` of an integer
unfoldable pub int_text : Formats → ℤ → Text
int_text f (pos n) = f.number_text n
int_text f (negsuc n) = str "-" ++ f.number_text (suc n)

-- `", ".join(parts)`
unfoldable pub join_comma : List Text → Text
join_comma [] = []
join_comma (t ∷ ts) = elim ts [ [] ↦ t | u ∷ us ↦ t ++ (str ", " ++ join_comma ts) ]

pub data Grade : Type 0 where
  grade_a grade_b grade_c grade_d grade_unknown : Grade

-- The scores, by the key that each has in a response.
pub data Score : Type 0 where
  readiness momentum opportunity risk priority : Score

unfoldable pub code_of : Score → Text
code_of Score.readiness = str "campaign_readiness_score"
code_of Score.momentum = str "momentum_score"
code_of Score.opportunity = str "content_opportunity_score"
code_of Score.risk = str "risk_score"
code_of Score.priority = str "priority_score"

-- `PRIORITY_WEIGHTS`, in hundredths
unfoldable pub priority_weight : Score → Option ℕ
priority_weight Score.opportunity = some 35
priority_weight Score.momentum = some 25
priority_weight Score.risk = some 20
priority_weight Score.readiness = some 20
priority_weight Score.priority = none

-- A weight and a value of a score.
pub record Component (F : Type 0) : Type 0 where
  pub key : Text
  pub weight : F
  pub value : F

-- What the rule of a score gives: a value with an explanation, or a warning.
pub record Outcome : Type 0 where
  pub value : Option ℤ
  pub explanation : Option Explanation
  pub warning : Option Warning

-- `_unknown`
abbrev pub unknown : Text → Text → Warning
unknown code reason = record {
  code = code ++ str "_unknown";
  message = code ++ (str " not computed: " ++ (reason ++ str "."));
  details = (str "score", code) ∷ [];
}

-- `None, None, self._unknown(…)`
abbrev pub uncomputed : Score → Text → Outcome
uncomputed score reason = record {
  value = none;
  explanation = none;
  warning = some (unknown (code_of score) reason);
}

module _ {F : Type 0} (x : Floats F) where
  abbrev pub component : Text → ℕ → F → Component F
  component key weight value = record { key = key; weight = x.hundredths weight; value = value }

  -- `1.0 if … else 0.0`
  abbrev pub indicator : Bool → F
  indicator b = x.hundredths (if b then 100 else 0)

  -- `_saturate`: counts are not negative here.
  unfoldable pub saturate : ℕ → ℕ → Result F
  saturate value saturation =
      let one = x.hundredths 100 in
      if value == 0 then ok (x.hundredths 0) else elim (x.ratio value saturation) [
        | none ↦ err Error.overflow_error
        | some share ↦ ok (if x.less one share then one else share)
      ]

  -- `_to_score`
  unfoldable pub to_score : List (Component F) → ℤ
  to_score components =
      let raw = x.total (map (λ c. x.multiply c.weight c.value) components) in
      max_ℤ (pos 0) (min_ℤ (pos 100) (x.round (x.multiply (x.of_int (pos 100)) raw)))

  -- `key w0.00 v0.00`
  abbrev pub component_text : Component F → Text
  component_text c = c.key ++ (str " w" ++ (x.fixed_2 c.weight ++ (str " v" ++ x.fixed_2 c.value)))

  -- `_scored`
  unfoldable pub scored : Formats → Score → List (Component F) → Outcome
  scored f score components =
      let value = to_score components in
      record {
        value = some value;
        explanation = some (
            explanation (code_of score)
              (code_of score
                ++ (str "="
                    ++ (int_text f value
                        ++ (str "/100 — weighted components: ["
                            ++ (join_comma (map component_text components) ++ str "].")))))
              (priority_weight score));
        warning = none;
      }
