-- ===== src/Intelligence/Scoring/Overflow.antt =====
-- Where a score raises: for a date that has no fourteen days before it, or for a count that is too
-- large to be divided as a `float`.
use moment_flow.Common.{
  is_empty, ℕ, ◌-◌, ◌==◌, ◌⊎◌, ◌≡◌, refl, Bool, true, false, ◌&&◌, ◌||◌, not, Option, none, some,
  is_some, arith, Bool-cases, Option-cases, inl, inr,
}
use moment_flow.Store.Exec.{Error, Result, ok, err, Result-cases}
use moment_flow.Intelligence.{Formats, CampaignDataBundle, ◌>>=◌}
use moment_flow.Intelligence.Moments.{clicks_7d, completed_outputs, has_recent_output, total_clicks}
use moment_flow.Intelligence.Moments.Reported.{is_early}
use moment_flow.Intelligence.Scoring.{Floats, saturate}
use moment_flow.Intelligence.Scoring.Scores.{
  clicks_30d, count_within, recent_content_value, content_gap_value,
}

-- Where a rule subtracts fourteen days from a date that has none so far before it.
abbrev pub raises : Formats → CampaignDataBundle → Option ℕ → Bool
raises f d day = not (is_empty (completed_outputs f d)) && is_early day

-- Where a count is not empty and its share of the saturation is too large for a `float`.
abbrev pub is_huge : {F : Type 0} → Floats F → ℕ → ℕ → Bool
is_huge x value saturation = not (value == 0) && not (is_some (x.ratio value saturation))

-- Where the number of recent completed outputs is.
abbrev pub is_recent_huge : {F : Type 0} → Floats F → Formats → CampaignDataBundle → Option ℕ → Bool
is_recent_huge x f d none = false
is_recent_huge x f d (some today) =
    is_huge x (count_within (today - 14) today (completed_outputs f d)) 2

abbrev pub is_content_raising :
    {F : Type 0} → Floats F → Formats → CampaignDataBundle → Option ℕ → Bool
is_content_raising x f d day =
    not (is_empty (completed_outputs f d)) && (is_early day || is_recent_huge x f d day)

-- Where scoring raises: for the date, or for a count.
abbrev pub overflows : {F : Type 0} → Floats F → Formats → CampaignDataBundle → Option ℕ → Bool
overflows x f d day =
    is_huge x (clicks_7d d.smart_link_stats) 100
    || (is_huge x (clicks_30d d.smart_link_stats) 400
        || (is_huge x (total_clicks d.smart_link_stats) 2000 || is_content_raising x f d day))

-- Whether momentum is computed.
abbrev pub has_traction_data : CampaignDataBundle → Bool
has_traction_data d = is_some d.smart_link_stats || not (is_empty d.content_outputs)

-- An overflow exactly where `bad` holds, and elsewhere a value with the property.
abbrev pub Settles : {A : Type 0} → (A → Type 0) → Bool → Result A → Type 0
Settles {A} Q bad r =
    ((bad ≡ true) × (r ≡ err Error.overflow_error)) ⊎ ((bad ≡ false) × ((v : A) × (r ≡ ok v) × Q v))

abbrev pub Returns : {A : Type 0} → Bool → Result A → Type 0
Returns bad r = Settles (λ v. Unit {0}) bad r

pub >>=-Settles :
    {A B : Type 0} (Q : B → Type 0) (p q : Bool) (r : Result A) (k : A → Result B)
    → Returns p r
    → ((a : A) → Settles Q q (k a))
    → Settles Q (p || q) (r >>= k)
>>=-Settles Q p q r k (inl (h, e)) next = rw (e, h) (inl (refl, refl))
>>=-Settles Q p q r k (inr (h, (a, e, u))) next = rw (e, h) (next a)

module _ {F : Type 0} (x : Floats F) (f : Formats) (d : CampaignDataBundle) where
  pub raises-overflows : (day : Option ℕ) → raises f d day ≡ true → overflows x f d day ≡ true
  raises-overflows day h = ground arith

  pub overflows-raises : (day : Option ℕ) → overflows x f d day ≡ false → raises f d day ≡ false
  overflows-raises day h = ground arith

  pub saturate-Returns :
      (value saturation : ℕ) → Returns (is_huge x value saturation) (saturate x value saturation)
  unfolding saturate
  saturate-Returns value saturation = elim (Bool-cases (value == 0)) [
    | inl z ↦ ground arith
    | inr n ↦ elim (Option-cases (x.ratio value saturation)) [
      | inl e ↦ ground arith
      | inr (share, e) ↦ ground arith
    ]
  ]

  pub recent_content-Returns :
      (day : Option ℕ) → Returns (is_content_raising x f d day) (recent_content_value x f d day)
  unfolding recent_content_value
  recent_content-Returns none = ground arith
  recent_content-Returns (some today) =
      ground (arith, saturate-Returns (count_within (today - 14) today (completed_outputs f d)) 2)

  pub content_gap_returns :
      (day : Option ℕ) → raises f d day ≡ false → (v : F) × (content_gap_value x f d day ≡ ok v)
  unfolding content_gap_value has_recent_output
  content_gap_returns day h = elim (Result-cases (content_gap_value x f d day)) [
    | inl (v, e) ↦ (v, e)
    | inr (e, raised) ↦ ground arith
  ]

  -- Without traction data there are no counts.
  pub no_traction : (day : Option ℕ) → has_traction_data d ≡ false → overflows x f d day ≡ false
  unfolding completed_outputs clicks_7d clicks_30d total_clicks
  no_traction day n = ground arith
