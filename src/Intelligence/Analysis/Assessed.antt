-- ===== src/Intelligence/Analysis/Assessed.antt =====
-- The health of a campaign, by what its data holds.
use moment_flow.Common.{
  is_empty, ℕ, ◌≡◌, refl, sym, Bool, true, false, ◌&&◌, ◌||◌, not, Option, none, some, is_some,
  List, [], ◌∷◌, ◌++◌, arith, inl, inr, ◌⊎◌, Bool-cases, if◌then◌else◌,
}
use moment_flow.Store.Exec.{Error, ok, err, Result-cases}
use moment_flow.Intelligence.{Formats, SmartLinkStats, CampaignDataBundle, CampaignRequest, Warning}
use moment_flow.Intelligence.Moments.{
  is_active, has_activity, completed_outputs, is_insufficient, parse_reference_date,
}
use moment_flow.Intelligence.Moments.Reported.{reference_of}
use moment_flow.Intelligence.Scoring.Overflow.{raises}
use moment_flow.Intelligence.Analysis.{
  CampaignHealth, CampaignAnalysisResponse, Signals, eval_content_outputs, eval_smart_links,
  eval_reports, eval_media_kit, eval_risk, derive_health,
}
use moment_flow.Intelligence.Analysis.Service.{
  analysis_of, insufficient_result, no_analysis, analyse, eval_rest, no_signals, result_of,
  analysis_warnings,
}

-- The health that the data calls for.
abbrev pub health_of : Formats → CampaignDataBundle → CampaignHealth
health_of f d =
    let has_content = not (is_empty (completed_outputs f d)) in
    let has_links = has_activity d.smart_link_stats in
    if is_insufficient d
    then CampaignHealth.unknown_health
    else if is_active f d && not has_content && not has_links
    then CampaignHealth.critical
    else if is_some d.smart_link_stats && not has_links
    then CampaignHealth.needs_attention
    else if has_content || has_links
    then CampaignHealth.good
    else CampaignHealth.needs_attention

-- Activity needs statistics.
activity_some : (stats : Option SmartLinkStats) → (is_some stats || not (has_activity stats)) ≡ true
unfolding has_activity
activity_some none = refl
activity_some (some s) = refl

module _ (f : Formats) (d : CampaignDataBundle) (day : Option ℕ) (s : Signals) where
  rest-risks :
      (gap : Bool)
      → is_empty s.risks ≡ true
      → is_empty (eval_rest f d day gap s).risks
        ≡ not (is_active f d && gap && not (has_activity d.smart_link_stats))
  unfolding eval_rest eval_smart_links eval_reports eval_media_kit eval_risk
  rest-risks gap h = ground (arith, activity_some d.smart_link_stats)

  rest-strengths :
      (gap : Bool)
      → is_empty (eval_rest f d day gap s).strengths ≡ (
          is_empty s.strengths
          && not (is_some d.smart_link_stats && has_activity d.smart_link_stats))
  unfolding eval_rest eval_smart_links eval_reports eval_media_kit eval_risk
  rest-strengths gap = ground arith

  rest-weaknesses :
      (gap : Bool)
      → is_empty s.weaknesses ≡ true
      → is_empty (eval_rest f d day gap s).weaknesses
        ≡ not (is_some d.smart_link_stats && not (has_activity d.smart_link_stats))
  unfolding eval_rest eval_smart_links eval_reports eval_media_kit eval_risk
  rest-weaknesses gap h = ground arith

-- What the rule on content finds, and does not touch.
abbrev Starts : Formats → CampaignDataBundle → Bool → Signals → Type 0
Starts f d gap s =
    (gap ≡ is_empty (completed_outputs f d))
    × (is_empty s.strengths ≡ gap)
    × (is_empty s.weaknesses ≡ true)
    × (is_empty s.risks ≡ true)

module _ (f : Formats) (d : CampaignDataBundle) (day : Option ℕ) (warnings : List Warning) where
  content-Starts :
      (gap : Bool) (s : Signals)
      → eval_content_outputs f d day (no_signals warnings) ≡ ok (gap, s)
      → Starts f d gap s
  unfolding eval_content_outputs
  content-Starts gap s h = ground arith

  content-raises :
      raises f d day ≡ true
      → eval_content_outputs f d day (no_signals warnings) ≡ err Error.overflow_error
  unfolding eval_content_outputs
  content-raises h = ground arith

  content_returns :
      raises f d day ≡ false
      → (g : Bool × Signals) × (eval_content_outputs f d day (no_signals warnings) ≡ ok g)
  unfolding eval_content_outputs
  content_returns h = elim (Result-cases (eval_content_outputs f d day (no_signals warnings))) [
    | inl (g, e) ↦ (g, e)
    | inr (x, e) ↦ ground arith
  ]

  -- The health that is read from the lists.
  rest-health :
      (gap : Bool) (s : Signals)
      → is_insufficient d ≡ false
      → Starts f d gap s
      → (result_of f (eval_rest f d day gap s)).campaign_health ≡ health_of f d
  unfolding derive_health
  rest-health gap s enough (eg, es, ew, er) =
      rw
        (
          rest-risks f d day s gap er,
          rest-strengths f d day s gap,
          rest-weaknesses f d day s gap ew,
          eg,
          es,
          enough,
        )
        (ground (arith, activity_some d.smart_link_stats))

raises_sufficient :
    (f : Formats) (d : CampaignDataBundle) (day : Option ℕ)
    → raises f d day ≡ true
    → is_insufficient d ≡ false
unfolding is_insufficient completed_outputs
raises_sufficient f d day h = ground arith

insufficient-health :
    (f : Formats) (d : CampaignDataBundle)
    → is_insufficient d ≡ true
    → health_of f d ≡ CampaignHealth.unknown_health
insufficient-health f d h = rw h refl

module _ (f : Formats) (r : CampaignRequest) where
  -- What the service warns of before its rules.
  abbrev before : List Warning
  before =
      (parse_reference_date f r.reference_date).1 ++ analysis_warnings f r.bundle (reference_of f r)

  abbrev analysed : Bool → Signals → CampaignAnalysisResponse
  analysed gap s =
      let signals = eval_rest f r.bundle (reference_of f r) gap s in
      analysis_of r (result_of f signals) signals.explanations signals.warnings

  analyse_enough :
      (gap : Bool) (s : Signals)
      → is_insufficient r.bundle ≡ false
      → eval_content_outputs f r.bundle (reference_of f r) (no_signals before) ≡ ok (gap, s)
      → analyse f r ≡ ok (analysed gap s)
  unfolding analyse
  analyse_enough gap s enough made = rw (enough, made, analyse) refl

module _ (f : Formats) (r : CampaignRequest) where
  -- The analysis answers every request but one kind, with the health that the data calls for: critical
  -- where an active campaign has neither completed content nor link activity, a warning where
  -- statistics show no activity or where there is nothing good to say, good where there is content or activity, and
  -- unknown without data. It raises an overflow exactly where there is completed content and the
  -- reference date is among the first fourteen days of the calendar.
  pub analyse_answers :
      ((raises f r.bundle (reference_of f r) ≡ true) × (analyse f r ≡ err Error.overflow_error))
      ⊎ ((raises f r.bundle (reference_of f r) ≡ false)
          × ((answer : CampaignAnalysisResponse) × (analyse f r ≡ ok answer)
              × (answer.result.campaign_health ≡ health_of f r.bundle)))
  unfolding analyse
  analyse_answers = elim (Bool-cases (raises f r.bundle (reference_of f r))) [
    | inl t ↦ inl (
      t,
      rw
          (
            raises_sufficient f r.bundle (reference_of f r) t,
            content-raises f r.bundle (reference_of f r) (before f r) t,
            analyse,
          )
          refl,
    )
    | inr n ↦ elim (Bool-cases (is_insufficient r.bundle)) [
      | inl t ↦ inr (
        n,
        (
          analysis_of r insufficient_result []
              ((parse_reference_date f r.reference_date).1 ++ (no_analysis ∷ [])),
          rw (t, analyse) refl,
          sym (insufficient-health f r.bundle t),
        ),
      )
      | inr enough ↦
          let ((gap, s), made) = content_returns f r.bundle (reference_of f r) (before f r) n in
          inr (
            n,
            (
              analysed f r gap s,
              analyse_enough f r gap s enough made,
              rest-health f r.bundle (reference_of f r) (before f r) gap s enough
                  (content-Starts f r.bundle (reference_of f r) (before f r) gap s made),
            ),
          )
    ]
  ]

pub analysed-health :
    (f : Formats) (r : CampaignRequest) (answer : CampaignAnalysisResponse)
    → analyse f r ≡ ok answer
    → answer.result.campaign_health ≡ health_of f r.bundle
analysed-health f r answer h = elim (analyse_answers f r) [
  | inl (_, raised) ↦ ground arith
  | inr (_, (made, e, health)) ↦ ground arith
]
