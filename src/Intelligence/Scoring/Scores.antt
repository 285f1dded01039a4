-- ===== src/Intelligence/Scoring/Scores.antt =====
-- The rules of the four scores and of the priority that blends them
-- (intelligence_engine/app/services/scoring_engine.py).
use moment_flow.Common.{
  is_empty, ℕ, ◌-◌, ltb, leb, Bool, false, ◌&&◌, ◌||◌, not, Option, none, some, is_some, List, [],
  ◌∷◌, length, select, Text, str, text_eq, strip, get_or_default, if◌then◌else◌,
}
use moment_flow.Store.Exec.{Error, Result, ok, err}
use moment_flow.Intelligence.{
  Formats, CampaignInfo, SmartLinkStats, CampaignDataBundle, ContentOutputSummary, ◌>>=◌,
}
use moment_flow.Intelligence.Moments.{
  is_one_of, lowered, status_of, is_finished, is_active, clamped, total_clicks, clicks_7d,
  has_activity, has_negative, completed_outputs, within, has_recent_output, has_usable_media_kit,
  has_recent_completed_report, are_inconsistent,
}
use moment_flow.Intelligence.Moments.Rules.{distance, release_date_of}
use moment_flow.Intelligence.Scoring.{
  Floats, Score, Outcome, Component, uncomputed, component, indicator, saturate, scored,
}

-- `_KNOWN_CAMPAIGN_STATUSES`
abbrev pub known_statuses : List Text
known_statuses =
    str "draft"
    ∷ str "scheduled"
    ∷ str "active"
    ∷ str "paused"
    ∷ str "completed"
    ∷ str "archived"
    ∷ []

-- `(campaign.primary_goal or "").strip() or data.goals`
abbrev pub has_goal : CampaignInfo → CampaignDataBundle → Bool
has_goal c d = not (is_empty (strip (get_or_default c.primary_goal []))) || not (is_empty d.goals)

unfoldable pub clicks_30d : Option SmartLinkStats → ℕ
clicks_30d none = 0
clicks_30d (some s) = clamped s.clicks_last_30_days

-- How many dates lie within the two days.
unfoldable pub count_within : ℕ → ℕ → List ContentOutputSummary → ℕ
count_within lo hi outs = length (select (λ o. within lo hi o.created_at) outs)

-- `_is_overdue`
abbrev pub is_past : Option ℕ → Option ℕ → Bool
is_past (some end) (some day) = ltb end day
is_past _ _ = false

unfoldable pub is_overdue : Formats → CampaignDataBundle → Option ℕ → Bool
is_overdue f d day = elim d.campaign [
  | none ↦ false
  | some c ↦ is_past c.end_date day && not (is_finished f d)
]

-- `_has_quality_issues`
abbrev pub has_inconsistent_dates : Option CampaignInfo → Bool
has_inconsistent_dates none = false
has_inconsistent_dates (some c) = are_inconsistent c.start_date c.end_date

abbrev pub has_negative_stats : Option SmartLinkStats → Bool
has_negative_stats none = false
has_negative_stats (some s) = has_negative s

unfoldable pub has_quality_issues : CampaignDataBundle → Bool
has_quality_issues d = has_inconsistent_dates d.campaign || has_negative_stats d.smart_link_stats

-- The condition for content to be scored at all.
abbrev pub has_subject : CampaignDataBundle → Bool
has_subject d =
    is_some d.campaign
    || is_some d.track
    || not (is_empty d.content_outputs)
    || not (is_empty d.previous_reports)
    || not (is_empty d.media_kits)

module _ {F : Type 0} (x : Floats F) (f : Formats) (d : CampaignDataBundle) where
  -- `_readiness`
  unfoldable pub readiness_score : Outcome
  readiness_score = elim d.campaign [
    | none ↦ uncomputed Score.readiness (str "no campaign data")
    | some c ↦ scored x f Score.readiness (
        component x (str "status_known") 20
          (indicator x (is_one_of known_statuses (lowered f c.status)))
        ∷ component x (str "artist_present") 15 (indicator x (is_some d.artist))
        ∷ component x (str "track_present") 15 (indicator x (is_some d.track))
        ∷ component x (str "goal_defined") 15 (indicator x (has_goal c d))
        ∷ component x (str "schedule_defined") 15 (indicator x (is_some c.start_date))
        ∷ component x (str "media_kit_ready") 20 (indicator x (has_usable_media_kit f d))
        ∷ [])
  ]

  -- `_recent_content_value`: no date is fourteen days before the first fourteen of the calendar, and
  -- the subtraction raises.
  unfoldable pub recent_content_value : Option ℕ → Result F
  recent_content_value day =
      let completed = completed_outputs f d in
      if is_empty completed then ok (x.hundredths 0) else elim day [
        | none ↦ ok (x.hundredths 50)
        | some today ↦
            if leb today 14
            then err Error.overflow_error
            else saturate x (count_within (today - 14) today completed) 2
      ]

  -- `_momentum`
  abbrev pub momentum_components : F → F → F → F → List (Component F)
  momentum_components week month all recent =
      component x (str "clicks_7d") 40 week
      ∷ component x (str "clicks_30d") 25 month
      ∷ component x (str "total_clicks") 15 all
      ∷ component x (str "recent_content") 20 recent
      ∷ []

  unfoldable pub momentum_score : Option ℕ → Result Outcome
  momentum_score day =
      if not (is_some d.smart_link_stats) && is_empty d.content_outputs
      then ok (uncomputed Score.momentum (str "no smart-link statistics or content outputs"))
      else do
        week ← saturate x (clicks_7d d.smart_link_stats) 100
        month ← saturate x (clicks_30d d.smart_link_stats) 400
        all ← saturate x (total_clicks d.smart_link_stats) 2000
        recent ← recent_content_value day
        ok (scored x f Score.momentum (momentum_components week month all recent))

  -- `_content_gap_value`
  unfoldable pub content_gap_value : Option ℕ → Result F
  content_gap_value day =
      let completed = completed_outputs f d in
      if is_empty completed then ok (x.hundredths 100) else elim day [
        | none ↦ ok (x.hundredths 20)
        | some today ↦ do
          has_recent ← has_recent_output completed today
          ok (x.hundredths (if has_recent then 0 else 40))
      ]

  -- `_timing_relevance`
  abbrev pub status_relevance : Text → F
  status_relevance status =
      if text_eq status (str "active")
      then x.hundredths 60
      else if text_eq status (str "scheduled")
      then x.hundredths 50
      else if text_eq status (str "paused")
      then x.hundredths 30
      else x.hundredths 0

  abbrev pub is_near : Option ℕ → Option ℕ → Bool
  is_near (some release) (some day) = leb (distance release day) 14
  is_near _ _ = false

  unfoldable pub timing_relevance : Option ℕ → F
  timing_relevance day =
      if is_near (release_date_of d) day then x.hundredths 100 else status_relevance (status_of f d)

  -- `_content_opportunity`
  abbrev pub opportunity_components : Option ℕ → F → List (Component F)
  opportunity_components day gap =
      component x (str "content_gap") 35 gap
      ∷ component x (str "report_due") 20 (indicator x (not (has_recent_completed_report f d day)))
      ∷ component x (str "media_kit_missing") 20 (indicator x (not (has_usable_media_kit f d)))
      ∷ component x (str "timing_relevance") 25 (timing_relevance day)
      ∷ []

  unfoldable pub opportunity_score : Option ℕ → Result Outcome
  opportunity_score day =
      if not (has_subject d)
      then ok (uncomputed Score.opportunity (str "no campaign, content, report or media-kit data"))
      else do
        gap ← content_gap_value day
        ok (scored x f Score.opportunity (opportunity_components day gap))

  -- `_link_inactivity_value`
  unfoldable pub link_inactivity_value : Option SmartLinkStats → F
  link_inactivity_value none = x.hundredths 0
  link_inactivity_value (some s) =
      let has_clicks =
        ltb 0 (clicks_7d (some s))
        || ltb 0 (clicks_30d (some s))
        || ltb 0 (total_clicks (some s)) in
      if has_clicks
      then x.hundredths 0
      else if ltb 0 (clamped s.active_links)
      then x.hundredths 50
      else x.hundredths 100

  -- `_risk`
  abbrev pub is_neglected : Bool
  is_neglected = is_active f d && is_empty (completed_outputs f d)

  abbrev pub risk_components : Option ℕ → List (Component F)
  risk_components day =
      component x (str "no_traction") 35
        (indicator x (is_neglected && not (has_activity d.smart_link_stats)))
      ∷ component x (str "link_inactivity") 20 (link_inactivity_value d.smart_link_stats)
      ∷ component x (str "content_gap_active") 15 (indicator x is_neglected)
      ∷ component x (str "overdue") 15 (indicator x (is_overdue f d day))
      ∷ component x (str "data_quality") 15 (indicator x (has_quality_issues d))
      ∷ []

  unfoldable pub risk_score : Option ℕ → Outcome
  risk_score day =
      if not (is_some d.campaign) && not (is_some d.smart_link_stats)
      then uncomputed Score.risk (str "no campaign data or smart-link statistics")
      else scored x f Score.risk (risk_components day)
