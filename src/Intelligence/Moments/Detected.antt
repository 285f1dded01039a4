-- ===== src/Intelligence/Moments/Detected.antt =====
-- Which moments are detected: one of each type whose rule fires, in order.
use moment_flow.Common.{
  ℕ, ◌+◌, ◌==◌, ◌≡◌, refl, ap, ◌∙◌, Bool, Option, none, some, is_some, List, arith, if◌then◌else◌,
}
use moment_flow.Store.Exec.{ok}
use moment_flow.Intelligence.{Formats, CampaignDataBundle, MomentType}
use moment_flow.Intelligence.Moments.Rules.{
  Moment, release_window, weekly_growth, milestone_reached, low_engagement, content_gap, report_due,
  media_kit_missing, smart_link_activity,
}
use moment_flow.Intelligence.Moments.Detector.{detected, maybe}
use moment_flow.Intelligence.Moments.Ordered.{count}

-- A rule makes moments of its own type only.
pub record Makes (ty : MomentType) (o : Option Moment) : Type 0 where
  pub makes : (m : Moment) → o ≡ some m → m.type ≡ ty

module _ (f : Formats) (d : CampaignDataBundle) where
  release_window-Makes : (day : Option ℕ) → Makes MomentType.release_window (release_window f d day)
  unfolding release_window
  release_window-Makes day = record { makes = λ m h. ground arith }

  weekly_growth-Makes : Makes MomentType.weekly_growth (weekly_growth f d)
  unfolding weekly_growth
  weekly_growth-Makes = record { makes = λ m h. ground arith }

  milestone_reached-Makes : Makes MomentType.milestone_reached (milestone_reached f d)
  unfolding milestone_reached
  milestone_reached-Makes = record { makes = λ m h. ground arith }

  low_engagement-Makes : Makes MomentType.low_engagement (low_engagement f d)
  unfolding low_engagement
  low_engagement-Makes = record { makes = λ m h. ground arith }

  report_due-Makes : (day : Option ℕ) → Makes MomentType.report_due (report_due f d day)
  unfolding report_due
  report_due-Makes day = record { makes = λ m h. ground arith }

  media_kit_missing-Makes : Makes MomentType.media_kit_missing (media_kit_missing f d)
  unfolding media_kit_missing
  media_kit_missing-Makes = record { makes = λ m h. ground arith }

  smart_link_activity-Makes :
      (weekly : Bool) → Makes MomentType.smart_link_activity (smart_link_activity d weekly)
  unfolding smart_link_activity
  smart_link_activity-Makes weekly = record { makes = λ m h. ground arith }

  pub content_gap-Makes :
      (day : Option ℕ) (gap : Option Moment)
      → content_gap f d day ≡ ok gap
      → Makes MomentType.content_gap gap
  unfolding content_gap
  content_gap-Makes day gap h = record { makes = λ m k. ground arith }

-- The position of a type in the order of detection.
abbrev type_index : MomentType → ℕ
type_index MomentType.release_window = 0
type_index MomentType.weekly_growth = 1
type_index MomentType.milestone_reached = 2
type_index MomentType.low_engagement = 3
type_index MomentType.content_gap = 4
type_index MomentType.report_due = 5
type_index MomentType.media_kit_missing = 6
type_index MomentType.smart_link_activity = 7

abbrev pub is_type : MomentType → Moment → Bool
is_type ty m = type_index m.type == type_index ty

abbrev pub bit : Bool → ℕ
bit b = if b then 1 else 0

-- A rule's moment is counted under the rule's type.
maybe-count :
    (ty u : MomentType) (o : Option Moment) (ms : List Moment)
    → Makes ty o
    → count (is_type u) (maybe o ms)
      ≡ (if type_index ty == type_index u then bit (is_some o) else 0) + count (is_type u) ms
maybe-count ty u none ms h = ground arith
maybe-count ty u (some m) ms h = rw (h.makes m refl) ground arith

-- The rule of each type.
abbrev pub rule_of :
    Formats → CampaignDataBundle → Option ℕ → Option Moment → MomentType → Option Moment
rule_of f d day gap MomentType.release_window = release_window f d day
rule_of f d day gap MomentType.weekly_growth = weekly_growth f d
rule_of f d day gap MomentType.milestone_reached = milestone_reached f d
rule_of f d day gap MomentType.low_engagement = low_engagement f d
rule_of f d day gap MomentType.content_gap = gap
rule_of f d day gap MomentType.report_due = report_due f d day
rule_of f d day gap MomentType.media_kit_missing = media_kit_missing f d
rule_of f d day gap MomentType.smart_link_activity =
    smart_link_activity d (is_some (weekly_growth f d))

-- What a type counts for where the moments of `ty` are counted.
abbrev share : MomentType → MomentType → Option Moment → ℕ
share ty u o = if type_index ty == type_index u then bit (is_some o) else 0

module _ (f : Formats) (d : CampaignDataBundle) (day : Option ℕ) (gap : Option Moment)
    (made : Makes MomentType.content_gap gap) where
  detected-sum :
      (u : MomentType)
      → count (is_type u) (detected f d day gap)
        ≡ share MomentType.release_window u (release_window f d day)
          + (share MomentType.weekly_growth u (weekly_growth f d)
              + (share MomentType.milestone_reached u (milestone_reached f d)
                  + (share MomentType.low_engagement u (low_engagement f d)
                      + (share MomentType.content_gap u gap
                          + (share MomentType.report_due u (report_due f d day)
                              + (share MomentType.media_kit_missing u (media_kit_missing f d)
                                  + (share MomentType.smart_link_activity u
                                        (smart_link_activity d (is_some (weekly_growth f d)))
                                      + 0)))))))
  unfolding detected
  detected-sum u =
      maybe-count _ u _ _ (release_window-Makes f d day)
      ∙ ap (λ n. share MomentType.release_window u (release_window f d day) + n)
          (maybe-count _ u _ _ (weekly_growth-Makes f d)
            ∙ ap (λ n. share MomentType.weekly_growth u (weekly_growth f d) + n)
                (maybe-count _ u _ _ (milestone_reached-Makes f d)
                  ∙ ap (λ n. share MomentType.milestone_reached u (milestone_reached f d) + n)
                      (maybe-count _ u _ _ (low_engagement-Makes f d)
                        ∙ ap (λ n. share MomentType.low_engagement u (low_engagement f d) + n)
                            (maybe-count _ u _ _ made
                              ∙ ap (λ n. share MomentType.content_gap u gap + n)
                                  (maybe-count _ u _ _ (report_due-Makes f d day)
                                    ∙ ap
                                        (λ n.
                                          share MomentType.report_due u (report_due f d day) + n)
                                        (maybe-count _ u _ _ (media_kit_missing-Makes f d)
                                          ∙ ap
                                              (λ n.
                                                share MomentType.media_kit_missing u
                                                  (media_kit_missing f d)
                                                + n)
                                              (maybe-count _ u _ _ (
                                                smart_link_activity-Makes f d
                                                  (is_some (weekly_growth f d))))))))))

  pub detected-count :
      (u : MomentType)
      → count (is_type u) (detected f d day gap) ≡ bit (is_some (rule_of f d day gap u))
  detected-count MomentType.release_window = detected-sum MomentType.release_window ∙ ground arith
  detected-count MomentType.weekly_growth = detected-sum MomentType.weekly_growth ∙ ground arith
  detected-count MomentType.milestone_reached =
      detected-sum MomentType.milestone_reached ∙ ground arith
  detected-count MomentType.low_engagement = detected-sum MomentType.low_engagement ∙ ground arith
  detected-count MomentType.content_gap = detected-sum MomentType.content_gap ∙ ground arith
  detected-count MomentType.report_due = detected-sum MomentType.report_due ∙ ground arith
  detected-count MomentType.media_kit_missing =
      detected-sum MomentType.media_kit_missing ∙ ground arith
  detected-count MomentType.smart_link_activity =
      detected-sum MomentType.smart_link_activity ∙ ground arith
