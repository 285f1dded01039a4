-- ===== src/Intelligence/Recommendations/Warned.antt =====
-- Which warnings of the scoring engine the recommender passes on.
use mathlib.Core.List.{append-nil, map-append}
use moment_flow.Common.{
  ℕ, ◌≡◌, refl, sym, ap, ◌∙◌, Bool, true, false, not, Option, List, [], ◌∷◌, ◌++◌, map, select,
  Text, str, text_eq, arith, inl, inr, Bool-cases, if◌then◌else◌,
}
use moment_flow.Store.Exec.{ok}
use moment_flow.Intelligence.{
  Formats, CampaignInfo, SmartLinkStats, ContentOutputSummary, CampaignRequest, RawDate, Warning,
}
use moment_flow.Intelligence.Moments.{is_one_of, parse_reference_date, date_warnings}
use moment_flow.Intelligence.Moments.Reported.{reference_of}
use moment_flow.Intelligence.Scoring.{Floats, Score, code_of}
use moment_flow.Intelligence.Scoring.Engine.{
  ScoreSet, ScoringResponse, has_no_score, score, check_consistency, clamp_warnings,
  future_warnings,
}
use moment_flow.Intelligence.Scoring.Outcomes.{missing_code}
use moment_flow.Intelligence.Scoring.Justified.{
  warning_codes, warned_codes, has_standing, is_computed, all_scores,
}
use moment_flow.Intelligence.Scoring.Scored.{scoring_warnings, score-codes, score-Computes}
use moment_flow.Intelligence.Recommendations.Engine.{
  RecommendationsResponse, carried_codes, is_carried, advise, recommend, too_little_data,
}
use moment_flow.Intelligence.Recommendations.Advised.{has_data, no_score-has_data}

select-map :
    (ws : List Warning)
    → warning_codes (select is_carried ws) ≡ select (is_one_of carried_codes) (warning_codes ws)
select-map [] = refl
select-map (w ∷ ws) = elim (Bool-cases (is_carried w)) [
  | inl t ↦ rw (t, select-map ws) refl
  | inr n ↦ rw (n, select-map ws) refl
]

module _ {A : Type 0} (p : A → Bool) where
  select-append : (xs ys : List A) → select p (xs ++ ys) ≡ select p xs ++ select p ys
  select-append [] ys = refl
  select-append (x ∷ xs) ys = elim (Bool-cases (p x)) [
    | inl t ↦ rw (t, select-append xs ys) refl
    | inr n ↦ rw (n, select-append xs ys) refl
  ]

-- All of a list passes the filter, or none of it does.
abbrev Kept : List Text → Type 0
Kept ts = select (is_one_of carried_codes) ts ≡ ts

abbrev Dropped : List Text → Type 0
Dropped ts = select (is_one_of carried_codes) ts ≡ []

Kept-append : (xs ys : List Text) → Kept xs → Kept ys → Kept (xs ++ ys)
Kept-append xs ys h k = select-append (is_one_of carried_codes) xs ys ∙ rw (h, k) refl

Dropped-append : (xs ys : List Text) → Dropped xs → Dropped ys → Dropped (xs ++ ys)
Dropped-append xs ys h k = select-append (is_one_of carried_codes) xs ys ∙ rw (h, k) refl

parsed-Kept : (f : Formats) (raw : RawDate) → Kept (warning_codes (parse_reference_date f raw).1)
unfolding parse_reference_date text_eq
parsed-Kept f raw = ground arith

dates-Kept : (c : Option CampaignInfo) → Kept (warning_codes (date_warnings c))
unfolding text_eq
dates-Kept c = ground arith

clamp-Kept : (s : Option SmartLinkStats) → Kept (warning_codes (clamp_warnings s))
unfolding text_eq
clamp-Kept s = ground arith

future-Kept :
    (f : Formats) (purpose : Text) (day : Option ℕ) (outs : List ContentOutputSummary)
    → Kept (warning_codes (future_warnings f purpose day outs))
unfolding text_eq
future-Kept f purpose day outs = ground arith

missing-is_carried : (s : Score) → is_one_of carried_codes (missing_code s) ≡ false
unfolding text_eq code_of
missing-is_carried Score.readiness = refl
missing-is_carried Score.momentum = refl
missing-is_carried Score.opportunity = refl
missing-is_carried Score.risk = refl
missing-is_carried Score.priority = refl

missing-Dropped : (p : Score → Bool) (ss : List Score) → Dropped (map missing_code (select p ss))
missing-Dropped p [] = refl
missing-Dropped p (s ∷ ss) = elim (Bool-cases (p s)) [
  | inl t ↦ rw (t, missing-is_carried s) (missing-Dropped p ss)
  | inr n ↦ rw n (missing-Dropped p ss)
]

grade-Dropped : (b : Bool) → Dropped (if b then [] else str "grade_unknown" ∷ [])
unfolding text_eq
grade-Dropped b = ground arith

insufficient-Dropped : (b : Bool) → Dropped (if b then str "insufficient_data" ∷ [] else [])
unfolding text_eq
insufficient-Dropped b = ground arith

warned-Dropped : (s : ScoreSet) → Dropped (warned_codes s)
warned-Dropped s =
    Dropped-append _ _ (missing-Dropped (λ score. not (is_computed s score)) all_scores)
      (Dropped-append _ _ (grade-Dropped (has_standing s)) (insufficient-Dropped (has_no_score s)))

scoring-Kept : (f : Formats) (r : CampaignRequest) → Kept (warning_codes (scoring_warnings f r))
unfolding check_consistency
scoring-Kept f r =
    let dated = date_warnings r.bundle.campaign in
    let clamped = clamp_warnings r.bundle.smart_link_stats in
    let future = future_warnings f (str "scoring") (reference_of f r) r.bundle.content_outputs in
    rw
      (
        map-append (λ w. w.code) (parse_reference_date f r.reference_date).1
            (dated ++ (clamped ++ future)),
        map-append (λ w. w.code) dated (clamped ++ future),
        map-append (λ w. w.code) clamped future,
      )
      (Kept-append _ _ (parsed-Kept f r.reference_date) (
        Kept-append _ _ (dates-Kept r.bundle.campaign) (
          Kept-append _ _ (clamp-Kept r.bundle.smart_link_stats)
            (future-Kept f (str "scoring") (reference_of f r) r.bundle.content_outputs))))

-- The codes of what the recommender carries over.
carried-codes :
    {F : Type 0} (x : Floats F) (f : Formats) (r : CampaignRequest) (s : ScoringResponse)
    → score x f r ≡ ok s
    → warning_codes (select is_carried s.warnings) ≡ warning_codes (scoring_warnings f r)
carried-codes x f r s scored =
    select-map s.warnings
    ∙ ap (λ ts. select (is_one_of carried_codes) ts) (score-codes x f r s scored).1
    ∙ select-append (is_one_of carried_codes) (warning_codes (scoring_warnings f r))
        (warned_codes s.scores)
    ∙ rw (scoring-Kept f r, warned-Dropped s.scores)
        (append-nil (warning_codes (scoring_warnings f r)))

module _ {F : Type 0} (x : Floats F) (f : Formats) (r : CampaignRequest) where
  -- Where the scoring engine answers a request, the recommender's answer warns of the date and of the consistency
  -- checks, of no score, and then of too little data exactly where there is nothing to score.
  pub recommend-codes :
      (scoring : ScoringResponse)
      → score x f r ≡ ok scoring
      → (answer : RecommendationsResponse) × (recommend x f r ≡ ok answer)
        × (warning_codes answer.warnings
            ≡ warning_codes (scoring_warnings f r)
              ++ (if has_data r.bundle then [] else str "insufficient_data" ∷ []))
  unfolding recommend advise
  recommend-codes s scored = (
    advise f r s,
    rw (scored, recommend) refl,
    elim (Bool-cases (has_no_score s.scores)) [
      | inl t ↦
          let bare : has_data r.bundle ≡ false =
            ground (
              arith,
              no_score-has_data r.bundle s.scores s.grade (score-Computes x f r s scored),
            ) in
          rw (t, bare, advise)
            (map-append (λ w. w.code) (select is_carried s.warnings) (too_little_data ∷ [])
              ∙ ap (λ ts. ts ++ (str "insufficient_data" ∷ [])) (carried-codes x f r s scored))
      | inr n ↦
          let full : has_data r.bundle ≡ true =
            ground (
              arith,
              no_score-has_data r.bundle s.scores s.grade (score-Computes x f r s scored),
            ) in
          rw (n, full, advise)
            (carried-codes x f r s scored ∙ sym (append-nil (warning_codes (scoring_warnings f r))))
    ],
  )
