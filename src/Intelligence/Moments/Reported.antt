-- ===== src/Intelligence/Moments/Reported.antt =====
-- What a response of the moment detector holds, and when there is none.
use moment_flow.Common.{
  is_empty, ℕ, ◌+◌, ◌≤◌, ◌≡◌, refl, ◌∙◌, Bool, true, false, ◌&&◌, not, Option, none, some, is_some,
  List, [], ◌∷◌, ◌++◌, arith, Bool-cases, inl, inr, ◌⊎◌, leb,
}
use moment_flow.Store.Exec.{Error, Result, ok, err, Result-cases}
use moment_flow.Intelligence.{CampaignRequest, Formats, CampaignDataBundle, MomentType, Warning}
use moment_flow.Intelligence.Moments.{
  is_insufficient, parse_reference_date, has_recent_output, completed_outputs,
}
use moment_flow.Intelligence.Moments.Rules.{
  Moment, weekly_growth, low_engagement, content_gap, smart_link_activity,
}
use moment_flow.Intelligence.Moments.Detector.{
  MomentsResponse, detected, detect_at, detect, sort_moments, response, consistency_warnings,
  insufficient_data,
}
use moment_flow.Intelligence.Moments.Ordered.{IsOrdered, count, sort-IsOrdered, sort-count}
use moment_flow.Intelligence.Moments.Detected.{
  is_type, bit, rule_of, content_gap-Makes, detected-count,
}

-- The reference date of a request.
abbrev pub reference_of : Formats → CampaignRequest → Option ℕ
reference_of f r = (parse_reference_date f r.reference_date).0

-- What the detector warns of before it looks for moments.
abbrev warned : Formats → CampaignRequest → List Warning
warned f r = (parse_reference_date f r.reference_date).1 ++ consistency_warnings r.bundle

module _ (f : Formats) (r : CampaignRequest) where
  pub detect_insufficient :
      is_insufficient r.bundle ≡ true
      → detect f r ≡ ok (response r [] (warned f r ++ (insufficient_data ∷ [])))
  unfolding detect detect_at
  detect_insufficient t = rw (t, detect_at) refl

  detect_sufficient :
      (gap : Option Moment)
      → is_insufficient r.bundle ≡ false
      → content_gap f r.bundle (reference_of f r) ≡ ok gap
      → detect f r
        ≡ ok (response r (sort_moments (detected f r.bundle (reference_of f r) gap)) (warned f r))
  unfolding detect detect_at
  detect_sufficient gap enough made = rw (enough, made, detect_at) refl

  pub detect_raised :
      (e : Error)
      → is_insufficient r.bundle ≡ false
      → content_gap f r.bundle (reference_of f r) ≡ err e
      → detect f r ≡ err e
  unfolding detect detect_at
  detect_raised e enough made = rw (enough, made, detect_at) refl

module _ (f : Formats) (r : CampaignRequest) where
  -- With enough data and no overflow in the content rule, the detector answers: in order of severity,
  -- confidence and type, with exactly one moment of each type whose rule fires and none of the others.
  pub detect-IsOrdered :
      (gap : Option Moment)
      → is_insufficient r.bundle ≡ false
      → content_gap f r.bundle (reference_of f r) ≡ ok gap
      → (answer : MomentsResponse) × (detect f r ≡ ok answer)
        × IsOrdered answer.moments
        × ((u : MomentType)
            → count (is_type u) answer.moments
              ≡ bit (is_some (rule_of f r.bundle (reference_of f r) gap u)))
  detect-IsOrdered gap enough made =
      let found = detected f r.bundle (reference_of f r) gap in
      (
        response r (sort_moments found) (warned f r),
        detect_sufficient f r gap enough made,
        sort-IsOrdered found,
        λ u.
            sort-count (is_type u) found
            ∙ detected-count f r.bundle (reference_of f r) gap
                (content_gap-Makes f r.bundle (reference_of f r) gap made) u,
      )

-- The first fourteen days of the calendar.
abbrev pub is_early : Option ℕ → Bool
is_early none = false
is_early (some day) = leb day 14

-- Where the content rule subtracts fourteen days from a date that has none so far before it.
abbrev pub overflows : Formats → CampaignDataBundle → Option ℕ → Bool
overflows f d day = is_some d.campaign && (not (is_empty (completed_outputs f d)) && is_early day)

content_gap_returns :
    (f : Formats) (d : CampaignDataBundle) (day : Option ℕ)
    → overflows f d day ≡ false
    → (gap : Option Moment) × (content_gap f d day ≡ ok gap)
unfolding content_gap has_recent_output
content_gap_returns f d day h = elim (Result-cases (content_gap f d day)) [
  | inl (gap, e) ↦ (gap, e)
  | inr (x, e) ↦ ground arith
]

content_gap-overflows :
    (f : Formats) (d : CampaignDataBundle) (day : Option ℕ)
    → overflows f d day ≡ true
    → content_gap f d day ≡ err Error.overflow_error
unfolding content_gap has_recent_output
content_gap-overflows f d day h = ground arith

campaign_suffices : (d : CampaignDataBundle) → is_some d.campaign ≡ true → is_insufficient d ≡ false
unfolding is_insufficient
campaign_suffices d h = ground arith

overflows_campaign :
    (f : Formats) (d : CampaignDataBundle) (day : Option ℕ)
    → overflows f d day ≡ true
    → is_some d.campaign ≡ true
overflows_campaign f d day h = ground arith

pub same_moments :
    (x y : MomentsResponse) (o : Result MomentsResponse)
    → o ≡ ok x
    → o ≡ ok y
    → x.moments ≡ y.moments
same_moments x y o h k = ground arith

low_or_activity :
    (f : Formats) (d : CampaignDataBundle) (weekly : Bool)
    → bit (is_some (low_engagement f d)) + bit (is_some (smart_link_activity d weekly)) ≤ 1
unfolding low_engagement smart_link_activity
low_or_activity f d weekly = ground arith

weekly_or_activity :
    (d : CampaignDataBundle) (weekly : Option Moment)
    → bit (is_some weekly) + bit (is_some (smart_link_activity d (is_some weekly))) ≤ 1
unfolding smart_link_activity
weekly_or_activity d weekly = ground arith

module _ (f : Formats) (r : CampaignRequest) where
  -- The detector answers every request but one kind: it raises exactly where the campaign has
  -- completed content and the reference date is among the first fourteen days of the calendar.
  pub detect_returns :
      ((overflows f r.bundle (reference_of f r) ≡ false)
        × ((answer : MomentsResponse) × (detect f r ≡ ok answer)))
      ⊎ ((overflows f r.bundle (reference_of f r) ≡ true) × (detect f r ≡ err Error.overflow_error))
  detect_returns = elim (Bool-cases (overflows f r.bundle (reference_of f r))) [
    | inr h ↦
        let (gap, e) = content_gap_returns f r.bundle (reference_of f r) h in
        elim (Bool-cases (is_insufficient r.bundle)) [
          | inl t ↦ inl (
            h,
            (response r [] (warned f r ++ (insufficient_data ∷ [])), detect_insufficient f r t),
          )
          | inr enough ↦ inl (
            h,
            (
              response r (sort_moments (detected f r.bundle (reference_of f r) gap)) (warned f r),
              detect_sufficient f r gap enough e,
            ),
          )
        ]
    | inl h ↦ inr (
      h,
      detect_raised f r Error.overflow_error
          (campaign_suffices r.bundle (overflows_campaign f r.bundle (reference_of f r) h))
          (content_gap-overflows f r.bundle (reference_of f r) h),
    )
  ]

  -- No request is answered with both low engagement and smart link activity, nor with both weekly
  -- growth and smart link activity.
  pub detect_exclusive :
      (answer : MomentsResponse)
      → detect f r ≡ ok answer
      → (count (is_type MomentType.low_engagement) answer.moments
            + count (is_type MomentType.smart_link_activity) answer.moments
          ≤ 1)
        × (count (is_type MomentType.weekly_growth) answer.moments
              + count (is_type MomentType.smart_link_activity) answer.moments
            ≤ 1)
  detect_exclusive answer h = elim (Bool-cases (is_insufficient r.bundle)) [
    | inl t ↦
        rw (same_moments answer _ (detect f r) h (detect_insufficient f r t))
          (omega arith, omega arith)
    | inr enough ↦ elim (Result-cases (content_gap f r.bundle (reference_of f r))) [
      | inr (e, raised) ↦ ground (arith, detect_raised f r e enough raised)
      | inl (gap, made) ↦
          let (x, ex, _, counted) = detect-IsOrdered f r gap enough made in
          rw
            (
              same_moments answer x (detect f r) h ex,
              counted MomentType.low_engagement,
              counted MomentType.smart_link_activity,
              counted MomentType.weekly_growth,
            )
            (
              low_or_activity f r.bundle (is_some (weekly_growth f r.bundle)),
              weekly_or_activity r.bundle (weekly_growth f r.bundle),
            )
    ]
  ]
