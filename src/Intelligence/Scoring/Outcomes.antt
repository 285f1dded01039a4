-- ===== src/Intelligence/Scoring/Outcomes.antt =====
-- What the rule of each score gives: when a value, when a warning.
use moment_flow.Common.{
  ℕ, leb, ◌≡◌, refl, Bool, true, false, ◌&&◌, ◌||◌, not, Option, is_some, List, [], ◌∷◌, ◌++◌, map,
  length, Text, str, arith, Bool-cases, Option-cases, inl, inr, if◌then◌else◌,
}
use moment_flow.Store.Exec.{Error, Result, ok, err}
use moment_flow.Intelligence.{Formats, CampaignDataBundle, ◌>>=◌}
use moment_flow.Intelligence.Moments.{clicks_7d, total_clicks}
use moment_flow.Intelligence.Scoring.{
  Floats, Score, Component, Outcome, code_of, uncomputed, saturate, scored, to_score,
}
use moment_flow.Intelligence.Scoring.Scores.{
  clicks_30d, has_subject, readiness_score, risk_components, momentum_components,
  opportunity_components, recent_content_value, momentum_score, opportunity_score, risk_score,
}
use moment_flow.Intelligence.Scoring.Blends.{Share, priority_of}
use moment_flow.Intelligence.Scoring.Engine.{listed, in_range}
use moment_flow.Intelligence.Scoring.Overflow.{
  raises, overflows, is_content_raising, has_traction_data, Settles, Returns, >>=-Settles,
  saturate-Returns, recent_content-Returns, content_gap_returns, no_traction,
}

abbrev pub missing_code : Score → Text
missing_code s = code_of s ++ str "_unknown"

-- A value with one explanation under the score's code, or no value with one warning under it.
abbrev pub IsOutcome : Score → Bool → Outcome → Type 0
IsOutcome s computed o =
    (is_some o.value ≡ computed)
    × (map (λ e. e.code) (listed o.explanation) ≡ (if computed then code_of s ∷ [] else []))
    × (map (λ w. w.code) (listed o.warning) ≡ (if computed then [] else missing_code s ∷ []))

abbrev pub IsBounded : Outcome → Type 0
IsBounded o = in_range o.value ≡ true

-- A score that is computed unless `absent`.
guarded-IsOutcome :
    (s : Score) (reason : Text) (o : Outcome) (absent : Bool)
    → IsOutcome s true o × IsBounded o
    → IsOutcome s (not absent) (if absent then uncomputed s reason else o)
      × IsBounded (if absent then uncomputed s reason else o)
guarded-IsOutcome s reason o true h = ((refl, refl, refl), refl)
guarded-IsOutcome s reason o false h = h

or-not : (a b : Bool) → (a || b) ≡ not (not a && not b)
or-not a b = ground arith

module _ {F : Type 0} (x : Floats F) (f : Formats) where
  scored-IsOutcome :
      (s : Score) (cs : List (Component F))
      → IsOutcome s true (scored x f s cs) × IsBounded (scored x f s cs)
  unfolding scored to_score
  scored-IsOutcome s cs = ((refl, refl, refl), ground arith)

  pub priority-IsOutcome :
      (shares : List Share)
      → IsOutcome Score.priority (leb 2 (length shares)) (priority_of x f shares)
  unfolding priority_of
  priority-IsOutcome shares = ground arith

module _ {F : Type 0} (x : Floats F) (f : Formats) (d : CampaignDataBundle) where
  pub readiness-IsOutcome :
      IsOutcome Score.readiness (is_some d.campaign) (readiness_score x f d)
      × IsBounded (readiness_score x f d)
  unfolding readiness_score
  readiness-IsOutcome = elim (Option-cases d.campaign) [
    | inl e ↦ rw (e, readiness_score) ((refl, refl, refl), refl)
    | inr (c, e) ↦ rw (e, readiness_score) (scored-IsOutcome x f Score.readiness _)
  ]

  pub risk-IsOutcome :
      (day : Option ℕ)
      → IsOutcome Score.risk
          (is_some d.campaign || is_some d.smart_link_stats)
          (risk_score x f d day)
        × IsBounded (risk_score x f d day)
  unfolding risk_score
  risk-IsOutcome day =
      rw (or-not (is_some d.campaign) (is_some d.smart_link_stats), risk_score)
        (guarded-IsOutcome Score.risk (str "no campaign data or smart-link statistics")
          (scored x f Score.risk (risk_components x f d day))
          (not (is_some d.campaign) && not (is_some d.smart_link_stats))
          (scored-IsOutcome x f Score.risk (risk_components x f d day)))

  recent_momentum :
      (week month all : F) (bad : Bool) (r : Result F)
      → Returns bad r
      → Settles
          (λ o. IsOutcome Score.momentum true o × IsBounded o)
          bad
          (do
            recent ← r
            ok (scored x f Score.momentum (momentum_components x f d week month all recent)))
  recent_momentum week month all bad r (inl (h, e)) = rw (e, h) (inl (refl, refl))
  recent_momentum week month all bad r (inr (h, (v, e, u))) =
      rw (e, h)
        (inr (
          refl,
          (
            _,
            refl,
            scored-IsOutcome x f Score.momentum (momentum_components x f d week month all v),
          ),
        ))

  -- The four values of momentum, in the order of the source.
  momentum_values-Settle :
      (day : Option ℕ)
      → Settles
          (λ o. IsOutcome Score.momentum true o × IsBounded o)
          (overflows x f d day)
          (do
            week ← saturate x (clicks_7d d.smart_link_stats) 100
            month ← saturate x (clicks_30d d.smart_link_stats) 400
            all ← saturate x (total_clicks d.smart_link_stats) 2000
            recent ← recent_content_value x f d day
            ok (scored x f Score.momentum (momentum_components x f d week month all recent)))
  momentum_values-Settle day =
      >>=-Settles _ _ _ _ _ (saturate-Returns x f d (clicks_7d d.smart_link_stats) 100) (λ week.
        >>=-Settles _ _ _ _ _ (saturate-Returns x f d (clicks_30d d.smart_link_stats) 400) (λ month.
          >>=-Settles _ _ _ _ _ (saturate-Returns x f d (total_clicks d.smart_link_stats) 2000)
            (λ all.
              recent_momentum week month all (is_content_raising x f d day)
                (recent_content_value x f d day) (recent_content-Returns x f d day))))

  momentum-traction :
      (day : Option ℕ)
      → has_traction_data d ≡ true
      → Settles
          (λ o. IsOutcome Score.momentum true o × IsBounded o)
          (overflows x f d day)
          (momentum_score x f d day)
  unfolding momentum_score
  momentum-traction day t = elim (momentum_values-Settle day) [
    | inl (h, e) ↦ inl (h, ground arith)
    | inr (h, (o, e, q)) ↦ inr (h, (o, ground arith, q))
  ]

  pub momentum-raises :
      (day : Option ℕ)
      → overflows x f d day ≡ true
      → momentum_score x f d day ≡ err Error.overflow_error
  momentum-raises day h = elim (Bool-cases (has_traction_data d)) [
    | inr n ↦ absurd (ground (arith, no_traction x f d day n))
    | inl t ↦ elim (momentum-traction day t) [
      | inl (h', e) ↦ e
      | inr (h', q) ↦ absurd (ground arith)
    ]
  ]

  pub momentum-IsOutcome :
      (day : Option ℕ)
      → overflows x f d day ≡ false
      → (o : Outcome) × (momentum_score x f d day ≡ ok o)
        × IsOutcome Score.momentum (has_traction_data d) o
        × IsBounded o
  unfolding momentum_score
  momentum-IsOutcome day h = elim (Bool-cases (has_traction_data d)) [
    | inl t ↦ elim (momentum-traction day t) [
      | inl (h', e) ↦ absurd (ground arith)
      | inr (h', (o, e, (given, bounded))) ↦ (o, e, rw t given, bounded)
    ]
    | inr n ↦ (
      uncomputed Score.momentum (str "no smart-link statistics or content outputs"),
      ground arith,
      rw n (refl, refl, refl),
      refl,
    )
  ]

  pub opportunity-IsOutcome :
      (day : Option ℕ)
      → raises f d day ≡ false
      → (o : Outcome) × (opportunity_score x f d day ≡ ok o)
        × IsOutcome Score.opportunity (has_subject d) o
        × IsBounded o
  unfolding opportunity_score
  opportunity-IsOutcome day h = elim (Bool-cases (has_subject d)) [
    | inl t ↦
        let (v, e) = content_gap_returns x f d day h in
        let (given, bounded) =
          scored-IsOutcome x f Score.opportunity (opportunity_components x f d day v) in
        (
          scored x f Score.opportunity (opportunity_components x f d day v),
          rw (t, e, opportunity_score) refl,
          rw t given,
          bounded,
        )
    | inr n ↦ (
      uncomputed Score.opportunity (str "no campaign, content, report or media-kit data"),
      rw (n, opportunity_score) refl,
      rw n (refl, refl, refl),
      refl,
    )
  ]
