-- ===== src/Intelligence/Recommendations/Fired.antt =====
-- Which recommendations the rules give: one for each action whose rule fires, all of them things that the
-- product can make.
use moment_flow.Common.{
  ℕ, ◌+◌, ◌==◌, ◌≡◌, refl, ◌∙◌, Bool, true, ◌&&◌, not, Option, none, some, is_some, List, [], ◌∷◌,
  Text, str, text_eq, any, arith, inl, inr, Option-cases, if◌then◌else◌,
}
use moment_flow.Intelligence.{Formats, CampaignDataBundle, ActionType}
use moment_flow.Intelligence.Sorting.{count}
use moment_flow.Intelligence.Moments.{is_one_of}
use moment_flow.Intelligence.Moments.Detected.{bit}
use moment_flow.Intelligence.Recommendations.{Recommendation, ExpectedOutput}
use moment_flow.Intelligence.Recommendations.Rules.{
  recommend_release, recommend_milestone, recommend_growth, recommend_media_kit, recommend_report,
  recommend_story, recommend_smart_link,
}
use moment_flow.Intelligence.Recommendations.Engine.{fired, maybe}

-- `SUPPORTED_PACKS`, `SUPPORTED_TEMPLATE_KEYS`
abbrev pub supported_packs : List Text
supported_packs =
    str "release_pack" ∷ str "milestone_pack" ∷ str "weekly_growth_pack" ∷ str "auto_media_kit" ∷ []

abbrev pub supported_template_keys : List Text
supported_template_keys =
    str "system_post"
    ∷ str "system_story"
    ∷ str "system_carousel"
    ∷ str "system_thumbnail"
    ∷ str "system_report"
    ∷ str "system_media_kit"
    ∷ []

-- A recommendation that names nothing beyond the catalogue.
abbrev pub is_supported_pack : Option Text → Bool
is_supported_pack none = true
is_supported_pack (some pack) = is_one_of supported_packs pack

abbrev pub is_unsupported_output : ExpectedOutput → Bool
is_unsupported_output o = not (is_one_of supported_template_keys o.template_key)

abbrev pub is_supported : Recommendation → Bool
is_supported rec =
    is_supported_pack rec.suggested_content_pack
    && not (any is_unsupported_output rec.expected_outputs)

-- The position of an action.
abbrev pub action_index : ActionType → ℕ
action_index ActionType.create_release_post = 0
action_index ActionType.create_story = 1
action_index ActionType.create_milestone_post = 2
action_index ActionType.create_weekly_growth_post = 3
action_index ActionType.create_media_kit = 4
action_index ActionType.create_report = 5
action_index ActionType.improve_smart_link = 6
action_index ActionType.wait_for_more_data = 7
action_index ActionType.no_action = 8

abbrev pub is_action : ActionType → Recommendation → Bool
is_action u rec = action_index rec.action == action_index u

-- A rule gives recommendations of its own action only, all supported.
abbrev pub Gives : ActionType → Option Recommendation → Type 0
Gives u o = (rec : Recommendation) → o ≡ some rec → (rec.action ≡ u) × (is_supported rec ≡ true)

-- The actions of the rules, in the order in which they are tried.
abbrev tried : List ActionType
tried =
    ActionType.create_release_post ∷ ActionType.create_milestone_post
    ∷ ActionType.create_weekly_growth_post ∷ ActionType.create_media_kit ∷ ActionType.create_report
    ∷ ActionType.create_story ∷ ActionType.improve_smart_link ∷ []

-- The recommendations for some actions.
abbrev gather : (ActionType → Option Recommendation) → List ActionType → List Recommendation
gather rule [] = []
gather rule (u ∷ us) = maybe (rule u) (gather rule us)

-- How many of some actions are `u`, with a rule that fires.
abbrev firings : (ActionType → Option Recommendation) → ActionType → List ActionType → ℕ
firings rule u [] = 0
firings rule u (v ∷ vs) =
    (if action_index v == action_index u then bit (is_some (rule v)) else 0) + firings rule u vs

module _ (f : Formats) (d : CampaignDataBundle) (day : Option ℕ) where
  -- The rule of an action.
  abbrev pub rule_for : ActionType → Option Recommendation
  rule_for ActionType.create_release_post = recommend_release f d day
  rule_for ActionType.create_milestone_post = recommend_milestone f d
  rule_for ActionType.create_weekly_growth_post = recommend_growth f d
  rule_for ActionType.create_media_kit = recommend_media_kit f d
  rule_for ActionType.create_report = recommend_report f d day
  rule_for ActionType.create_story = recommend_story f d (is_some (recommend_growth f d))
  rule_for ActionType.improve_smart_link = recommend_smart_link f d
  rule_for ActionType.wait_for_more_data = none
  rule_for ActionType.no_action = none

  rule_for-Gives : (u : ActionType) → Gives u (rule_for u)
  unfolding recommend_release recommend_milestone recommend_growth recommend_media_kit
      recommend_report recommend_story recommend_smart_link text_eq
  rule_for-Gives ActionType.create_release_post rec h = ground arith
  rule_for-Gives ActionType.create_milestone_post rec h = ground arith
  rule_for-Gives ActionType.create_weekly_growth_post rec h = ground arith
  rule_for-Gives ActionType.create_media_kit rec h = ground arith
  rule_for-Gives ActionType.create_report rec h = ground arith
  rule_for-Gives ActionType.create_story rec h = ground arith
  rule_for-Gives ActionType.improve_smart_link rec h = ground arith
  rule_for-Gives ActionType.wait_for_more_data rec h = ground arith
  rule_for-Gives ActionType.no_action rec h = ground arith

module _ (rule : ActionType → Option Recommendation)
    (given : (u : ActionType) → Gives u (rule u)) where
  gather-count :
      (u : ActionType) (us : List ActionType)
      → count (is_action u) (gather rule us) ≡ firings rule u us
  gather-count u [] = refl
  gather-count u (v ∷ vs) = elim (Option-cases (rule v)) [
    | inl e ↦ rw (e, gather-count u vs) ground arith
    | inr (rec, e) ↦ rw (e, (given v rec e).0, gather-count u vs) ground arith
  ]

  gather-supported :
      (us : List ActionType) → count (λ rec. not (is_supported rec)) (gather rule us) ≡ 0
  gather-supported [] = refl
  gather-supported (v ∷ vs) = elim (Option-cases (rule v)) [
    | inl e ↦ rw e (gather-supported vs)
    | inr (rec, e) ↦ rw (e, (given v rec e).1, gather-supported vs) ground arith
  ]

module _ (f : Formats) (d : CampaignDataBundle) (day : Option ℕ) where
  firings-tried :
      (u : ActionType) → firings (rule_for f d day) u tried ≡ bit (is_some (rule_for f d day u))
  firings-tried ActionType.create_release_post = ground arith
  firings-tried ActionType.create_story = ground arith
  firings-tried ActionType.create_milestone_post = ground arith
  firings-tried ActionType.create_weekly_growth_post = ground arith
  firings-tried ActionType.create_media_kit = ground arith
  firings-tried ActionType.create_report = ground arith
  firings-tried ActionType.improve_smart_link = ground arith
  firings-tried ActionType.wait_for_more_data = ground arith
  firings-tried ActionType.no_action = ground arith

  pub fired-count :
      (u : ActionType) → count (is_action u) (fired f d day) ≡ bit (is_some (rule_for f d day u))
  unfolding fired
  fired-count u = gather-count (rule_for f d day) (rule_for-Gives f d day) u tried ∙ firings-tried u

  pub fired-supported : count (λ rec. not (is_supported rec)) (fired f d day) ≡ 0
  unfolding fired
  fired-supported = gather-supported (rule_for f d day) (rule_for-Gives f d day) tried
