-- ===== src/Intelligence/Scoring/Blends.antt =====
-- The two blends of the scores: the priority, and the standing that the grade is read from
-- (intelligence_engine/app/services/scoring_engine.py).
use moment_flow.Common.{
  ℕ, ltb, ℤ, pos, negate, ◌+ℤ◌, leb_ℤ, Option, none, some, List, [], ◌∷◌, ◌++◌, map, length, Text,
  str, if◌then◌else◌,
}
use moment_flow.Intelligence.{Formats, Explanation, explanation, Warning}
use moment_flow.Intelligence.Scoring.{
  Floats, Grade, Score, Outcome, code_of, uncomputed, unknown, int_text, join_comma,
}

-- A score with its weight in a blend, in hundredths.
pub record Share : Type 0 where
  pub key : Text
  pub weight : ℕ
  pub value : ℤ

-- `… if value is not None`
abbrev pub share_of : Text → ℕ → Option ℤ → List Share → List Share
share_of key weight none shares = shares
share_of key weight (some value) shares =
    record { key = key; weight = weight; value = value } ∷ shares

unfoldable pub priority_shares : Option ℤ → Option ℤ → Option ℤ → Option ℤ → List Share
priority_shares readiness momentum opportunity risk =
    share_of (code_of Score.opportunity) 35 opportunity (
      share_of (code_of Score.momentum) 25 momentum (
        share_of (code_of Score.risk) 20 risk (share_of (code_of Score.readiness) 20 readiness [])))

-- `(100 - risk) if risk is not None else None`
abbrev pub inverted : Option ℤ → Option ℤ
inverted none = none
inverted (some risk) = some (pos 100 +ℤ negate risk)

unfoldable pub standing_shares : Option ℤ → Option ℤ → Option ℤ → List Share
standing_shares readiness momentum risk =
    share_of (str "readiness") 35 readiness
      (share_of (str "momentum") 35 momentum (share_of (str "risk_inverted") 30 (inverted risk) []))

-- `_grade_for`, on `GRADE_THRESHOLDS`
unfoldable pub grade_for : ℤ → Grade
grade_for standing =
    if leb_ℤ (pos 80) standing
    then Grade.grade_a
    else if leb_ℤ (pos 65) standing
    then Grade.grade_b
    else if leb_ℤ (pos 45) standing
    then Grade.grade_c
    else Grade.grade_d

unfoldable pub grade_text : Grade → Text
grade_text Grade.grade_a = str "A"
grade_text Grade.grade_b = str "B"
grade_text Grade.grade_c = str "C"
grade_text Grade.grade_d = str "D"
grade_text Grade.grade_unknown = str "unknown"

module _ {F : Type 0} (x : Floats F) (f : Formats) where
  -- The weighted mean of the shares.
  unfoldable pub blend : List Share → ℤ
  blend shares =
      let scores = map (λ s. x.multiply (x.hundredths s.weight) (x.of_int s.value)) shares in
      let weights = map (λ s. x.hundredths s.weight) shares in
      x.round (x.divide (x.total scores) (x.total weights))

  abbrev pub share_text : Share → Text
  share_text s =
      s.key ++ (str " w" ++ (x.fixed_2 (x.hundredths s.weight) ++ (str " v" ++ int_text f s.value)))

  abbrev pub breakdown : List Share → Text
  breakdown shares = join_comma (map share_text shares)

  -- `_priority`
  unfoldable pub priority_of : List Share → Outcome
  priority_of shares =
      if ltb (length shares) 2
      then uncomputed Score.priority (str "fewer than two component scores available")
      else record {
        value = some (blend shares);
        explanation = some (
            explanation (code_of Score.priority)
              (str "priority_score="
                ++ (int_text f (blend shares)
                    ++ (str "/100 — weighted blend of ["
                        ++ (breakdown shares
                            ++ str
                                "] (weights renormalised over available scores; risk raises priority)."))))
              none);
        warning = none;
      }

  -- `_grade`: the grade, with what it is explained by or warned of
  abbrev pub grade_explanation : List Share → Explanation
  grade_explanation shares =
      explanation (str "grade")
        (str "grade="
          ++ (grade_text (grade_for (blend shares))
              ++ (str " (overall_standing="
                  ++ (int_text f (blend shares)
                      ++ (str "/100) — weighted blend of ["
                          ++ (breakdown shares
                              ++ str "] (renormalised over available scores)."))))))
        none

  unfoldable pub grade_of : List Share → Grade × List Explanation × List Warning
  grade_of [] = (
    Grade.grade_unknown,
    [],
    unknown (str "grade") (str "no readiness, momentum or risk score") ∷ [],
  )
  grade_of (s ∷ shares) = (grade_for (blend (s ∷ shares)), grade_explanation (s ∷ shares) ∷ [], [])
