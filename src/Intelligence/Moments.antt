-- ===== src/Intelligence/Moments.antt =====
-- The predicates of the moment detector (intelligence_engine/app/services/moment_detector.py).
pub mod Rules
pub mod Detector
pub mod Detected
pub mod Ordered
pub mod Reported
use moment_flow.Common.{
  is_empty, ℕ, ◌+◌, ◌-◌, ltb, leb, ℤ, pos, pos_part, ltb_ℤ, Bool, true, false, ◌&&◌, ◌||◌, not,
  Option, none, some, is_some, List, [], ◌∷◌, Text, str, text_eq, any, select, get_or_default,
  if◌then◌else◌,
}
use moment_flow.Store.Exec.{Error, Result, ok, err}
use moment_flow.Intelligence.{
  Formats, CampaignInfo, SmartLinkStats, ContentOutputSummary, ReportSummary, MediaKitSummary, Goal,
  CampaignDataBundle, RawDate, Warning, warning,
}

abbrev pub is_one_of : List Text → Text → Bool
is_one_of names t = any (λ n. text_eq t n) names

abbrev pub lowered : Formats → Option Text → Text
lowered f t = f.lower (get_or_default t [])

-- `_status`, `_campaign_type`
unfoldable pub status_of : Formats → CampaignDataBundle → Text
status_of f d = elim d.campaign [ some c ↦ lowered f c.status | none ↦ [] ]

unfoldable pub campaign_type_of : Formats → CampaignDataBundle → Text
campaign_type_of f d = elim d.campaign [ some c ↦ lowered f c.campaign_type | none ↦ [] ]

-- `_FINISHED_CAMPAIGN_STATUSES`
unfoldable pub is_finished : Formats → CampaignDataBundle → Bool
is_finished f d = is_one_of (str "completed" ∷ str "archived" ∷ []) (status_of f d)

unfoldable pub is_active : Formats → CampaignDataBundle → Bool
is_active f d = text_eq (status_of f d) (str "active")

-- `max(value or 0, 0)`
abbrev pub clamped : Option ℤ → ℕ
clamped none = 0
clamped (some n) = pos_part n

unfoldable pub total_clicks : Option SmartLinkStats → ℕ
total_clicks none = 0
total_clicks (some s) = clamped s.total_clicks

unfoldable pub clicks_7d : Option SmartLinkStats → ℕ
clicks_7d none = 0
clicks_7d (some s) = clamped s.clicks_last_7_days

abbrev pub is_positive : Option ℤ → Bool
is_positive none = false
is_positive (some n) = ltb_ℤ (pos 0) n

abbrev pub is_negative : Option ℤ → Bool
is_negative none = false
is_negative (some n) = ltb_ℤ n (pos 0)

abbrev pub counters : SmartLinkStats → List (Option ℤ)
counters s = s.total_clicks ∷ s.clicks_last_7_days ∷ s.clicks_last_30_days ∷ s.active_links ∷ []

unfoldable pub has_activity : Option SmartLinkStats → Bool
has_activity none = false
has_activity (some s) = any is_positive (counters s)

unfoldable pub has_negative : SmartLinkStats → Bool
has_negative s = any is_negative (counters s)

unfoldable pub completed_outputs : Formats → CampaignDataBundle → List ContentOutputSummary
completed_outputs f d =
    select (λ o. text_eq (lowered f o.status) (str "completed")) d.content_outputs

abbrev pub within : ℕ → ℕ → Option ℕ → Bool
within lo hi none = false
within lo hi (some day) = leb lo day && leb day hi

-- `_has_recent_output`: the first fourteen days of the calendar have no date fourteen days before
-- them, and the subtraction raises.
unfoldable pub has_recent_output : List ContentOutputSummary → ℕ → Result Bool
has_recent_output outs day =
    if leb day 14
    then err Error.overflow_error
    else ok (any (λ o. within (day - 14) day o.created_at) outs)

unfoldable pub has_usable_media_kit : Formats → CampaignDataBundle → Bool
has_usable_media_kit f d =
    any (λ k. is_one_of (str "generated" ∷ str "published" ∷ []) (lowered f k.status)) d.media_kits

abbrev pub ends : List ReportSummary → List ℕ
ends [] = []
ends (r ∷ rs) = elim r.period_end [ some day ↦ day ∷ ends rs | none ↦ ends rs ]

abbrev pub completed_reports : Formats → CampaignDataBundle → List ReportSummary
completed_reports f d =
    select (λ r. text_eq (lowered f r.status) (str "completed")) d.previous_reports

-- A report of the future is recent too: its age is negative.
unfoldable pub has_recent_report : List ReportSummary → Option ℕ → Bool
has_recent_report [] day = false
has_recent_report (r ∷ rs) none = true
has_recent_report (r ∷ rs) (some day) =
    let dated = ends (r ∷ rs) in if is_empty dated then true else any (λ e. leb day (e + 30)) dated

abbrev pub has_recent_completed_report : Formats → CampaignDataBundle → Option ℕ → Bool
has_recent_completed_report f d day = has_recent_report (completed_reports f d) day

-- `_is_insufficient`
unfoldable pub is_insufficient : CampaignDataBundle → Bool
is_insufficient d =
    not (is_some d.campaign)
    && not (is_some d.artist)
    && not (is_some d.track)
    && not (is_some d.smart_link_stats)
    && is_empty d.content_outputs
    && is_empty d.previous_reports
    && is_empty d.media_kits
    && is_empty d.goals

-- `_parse_reference_date`: the date, and what it warns of
unfoldable pub parse_reference_date : Formats → RawDate → Option ℕ × List Warning
parse_reference_date f RawDate.absent = (none, [])
parse_reference_date f (RawDate.of_date day) = (some day, [])
parse_reference_date f (RawDate.of_text t) = elim (f.iso_date t) [
  | some day ↦ (some day, [])
  | none ↦ (
    none,
    warning (str "invalid_reference_date")
          (str "context.reference_date is not a valid ISO date; ignored.")
        ∷ [],
  )
]
parse_reference_date f RawDate.other = (
  none,
  warning (str "invalid_reference_date")
        (str "context.reference_date has an unexpected type; ignored.")
      ∷ [],
)

abbrev pub are_inconsistent : Option ℕ → Option ℕ → Bool
are_inconsistent (some start) (some end) = ltb end start
are_inconsistent _ _ = false

abbrev pub date_warnings : Option CampaignInfo → List Warning
date_warnings none = []
date_warnings (some c) =
    if are_inconsistent c.start_date c.end_date
    then warning (str "inconsistent_campaign_dates") (str "Campaign end_date is before start_date.")
      ∷ []
    else []

abbrev pub stats_warnings : Option SmartLinkStats → List Warning
stats_warnings none = []
stats_warnings (some s) =
    if has_negative s
    then warning (str "negative_smart_link_stats")
        (str "Smart-link statistics contain negative values; treated as inactive.")
      ∷ []
    else []
