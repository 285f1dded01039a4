-- ===== src/Intelligence/Analysis/Critical.antt =====
-- What the moment detector makes of a campaign that the analysis finds critical.
use moment_flow.Common.{
  is_empty, ℕ, ◌≡◌, sym, ◌∙◌, true, false, Option, some, is_some, text_eq, arith,
}
use moment_flow.Store.Exec.{ok}
use moment_flow.Intelligence.{Formats, CampaignDataBundle, CampaignRequest, Severity}
use moment_flow.Intelligence.Moments.{is_active, status_of, has_activity, completed_outputs}
use moment_flow.Intelligence.Moments.Rules.{Moment, content_gap, gap_moment, low_engagement}
use moment_flow.Intelligence.Moments.Reported.{reference_of}
use moment_flow.Intelligence.Analysis.Assessed.{health_of, analysed-health}
use moment_flow.Intelligence.Analysis.{CampaignHealth, CampaignAnalysisResponse}
use moment_flow.Intelligence.Analysis.Service.{analyse}

active_campaign :
    (f : Formats) (d : CampaignDataBundle) → is_active f d ≡ true → is_some d.campaign ≡ true
unfolding is_active status_of text_eq
active_campaign f d h = ground arith

critical_signs :
    (f : Formats) (d : CampaignDataBundle)
    → health_of f d ≡ CampaignHealth.critical
    → (is_active f d ≡ true)
      × (is_empty (completed_outputs f d) ≡ true)
      × (has_activity d.smart_link_stats ≡ false)
critical_signs f d h = (ground arith, ground arith, ground arith)

-- The rules of the detector on a campaign that is active, without content and without activity.
neglected-detected :
    (f : Formats) (d : CampaignDataBundle) (day : Option ℕ)
    → is_some d.campaign ≡ true
    → is_active f d ≡ true
    → is_empty (completed_outputs f d) ≡ true
    → has_activity d.smart_link_stats ≡ false
    → (content_gap f d day ≡ ok (some (gap_moment f d)))
      × ((gap_moment f d).severity ≡ Severity.high)
      × (is_some (low_engagement f d) ≡ is_some d.smart_link_stats)
      × ((m : Moment) → low_engagement f d ≡ some m → m.severity ≡ Severity.high)
unfolding content_gap low_engagement
neglected-detected f d day present active bare idle =
    (ground arith, ground arith, ground arith, λ m h. ground arith)

-- What the detector makes of a campaign in a critical state.
module _ (f : Formats) (r : CampaignRequest) where
  -- Where the analysis finds a campaign critical, the moment detector's rules fire with high severity: the
  -- one on missing content, and the one on low engagement if there are link statistics.
  pub critical-detected :
      (answer : CampaignAnalysisResponse)
      → analyse f r ≡ ok answer
      → answer.result.campaign_health ≡ CampaignHealth.critical
      → (content_gap f r.bundle (reference_of f r) ≡ ok (some (gap_moment f r.bundle)))
        × ((gap_moment f r.bundle).severity ≡ Severity.high)
        × (is_some (low_engagement f r.bundle) ≡ is_some r.bundle.smart_link_stats)
        × ((m : Moment) → low_engagement f r.bundle ≡ some m → m.severity ≡ Severity.high)
  critical-detected answer h critical =
      let (active, bare, idle) =
        critical_signs f r.bundle (sym (analysed-health f r answer h) ∙ critical) in
      neglected-detected f r.bundle (reference_of f r) (active_campaign f r.bundle active) active
        bare idle
