-- ===== src/Campaigns/Settled.antt =====
-- Which attempt settles a request for a diagnostic, and what the endpoint makes of it.
use moment_flow.Common.{
  is_empty, ℕ, zero, suc, ◌+◌, ◌≤◌, ◌<◌, ◌≡◌, refl, ap, ◌∙◌, ◌==◌, ==_iff, Bool, true, false, some,
  List, if◌then◌else◌, arith, inl, inr, ◌⊎◌, Bool-cases,
}
use moment_flow.Campaigns.{
  CampaignRow, Switches, load_campaign, service_error, outcome_for, run, status_code,
}
use moment_flow.Campaigns.Client.{
  Values, Reply, EngineClient, Outcome, EngineError, attempt, is_transient, fails_transiently,
  retry, post_campaign_intelligence,
}

module _ {J : Type 0} (v : Values J) (replies : ℕ → Reply) where
  abbrev pub fails : ℕ → Bool
  fails n = fails_transiently v (attempt v (replies n))

  -- Of the attempts from the n-th on, with so many more after it, the k-th settles: those before it
  -- fail transiently, and it does not, or is the last.
  abbrev pub SettlesAt : ℕ → ℕ → Outcome J → ℕ → Type 0
  SettlesAt more n o k =
      (n ≤ k)
      × (k ≤ n + more)
      × ((i : ℕ) → n ≤ i → i < k → fails i ≡ true)
      × ((fails k ≡ false) ⊎ (k ≡ n + more))
      × (o ≡ attempt v (replies k))

  last-shift :
      (k n more : ℕ)
      → (fails k ≡ false) ⊎ (k ≡ suc n + more)
      → (fails k ≡ false) ⊎ (k ≡ n + suc more)
  last-shift k n more (inl settled) = inl settled
  last-shift k n more (inr last) = inr (omega arith)

  fails-first :
      (n k : ℕ)
      → fails n ≡ true
      → ((i : ℕ) → suc n ≤ i → i < k → fails i ≡ true)
      → (i : ℕ) → n ≤ i
      → i < k
      → fails i ≡ true
  fails-first n k failed before i low high = elim (Bool-cases (i == n)) [
    | inl same ↦ ap fails ((==_iff i n).0 same) ∙ failed
    | inr other ↦ before i (ground arith) high
  ]

  retry-SettlesAt : (more n : ℕ) → (k : ℕ) × SettlesAt more n (retry v replies more n) k
  unfolding retry
  retry-SettlesAt zero n =
      (n, (omega arith, omega arith, λ i low high. ground arith, inr (omega arith), refl))
  retry-SettlesAt (suc more) n = elim (Bool-cases (fails n)) [
    | inr settled ↦
        (n, (omega arith, omega arith, λ i low high. ground arith, inl settled, rw settled refl))
    | inl failed ↦
        let (k, (low, high, before, last, e)) = retry-SettlesAt more (suc n) in
        (
          k,
          (
            omega arith,
            omega arith,
            fails-first n k failed before,
            last-shift k n more last,
            rw failed e,
          ),
        )
  ]

-- The status that the endpoint gives an attempt that settles: 200 for an answer, 503 for a transient
-- failure, 502 for any other.
abbrev pub settled_status : {J : Type 0} → Values J → Outcome J → ℕ
settled_status v (Outcome.answered result) = 200
settled_status v (Outcome.raised e) = if is_transient v e then 503 else 502

outcome_for-status :
    {J : Type 0} (v : Values J) (c : CampaignRow) (o : Outcome J)
    → status_code (outcome_for v c o) ≡ some (settled_status v o)
unfolding outcome_for service_error is_transient status_code
outcome_for-status v c (Outcome.answered result) = refl
outcome_for-status v c (Outcome.raised EngineError.timeout) = refl
outcome_for-status v c (Outcome.raised EngineError.unreachable) = refl
outcome_for-status v c (Outcome.raised EngineError.protocol_error) = refl
outcome_for-status v c (Outcome.raised (EngineError.response_error code error_code message)) =
    ground arith

module _ {J : Type 0} (v : Values J) (s : Switches) (client : EngineClient)
    (replies : ℕ → Reply) where
  run-engine :
      (workspace id : ℕ) (rows : List CampaignRow) (c : CampaignRow) (o : Outcome J)
      → s.enabled ≡ true
      → s.dry_run ≡ false
      → load_campaign workspace id rows ≡ some c
      → post_campaign_intelligence v client replies ≡ o
      → run v s client replies workspace (some id) rows ≡ outcome_for v c o
  unfolding run
  run-engine workspace id rows c o on real found e = rw (found, on, real, e, run) refl

  post-retry :
      is_empty client.base_url ≡ false
      → post_campaign_intelligence v client replies ≡ retry v replies client.max_retries 1
  unfolding post_campaign_intelligence
  post-retry h = ground arith

  -- With the engine enabled, no dry run, a URL and an existing campaign, a request for a diagnostic
  -- settles with one of the attempts from the first to one more than the retries: each before it
  -- fails transiently, and it does not, or is the last. Its outcome is the client's and the
  -- service's, and the endpoint answers 200 where it is an answer, 503 where it fails transiently,
  -- after all the retries then, and 502 where the engine refuses or its body cannot be used.
  pub run-SettlesAt :
      (workspace id : ℕ) (rows : List CampaignRow) (c : CampaignRow)
      → s.enabled ≡ true
      → s.dry_run ≡ false
      → is_empty client.base_url ≡ false
      → load_campaign workspace id rows ≡ some c
      → (k : ℕ) × SettlesAt v replies client.max_retries 1
          (post_campaign_intelligence v client replies)
          k
        × (run v s client replies workspace (some id) rows
            ≡ outcome_for v c (attempt v (replies k)))
        × (status_code (run v s client replies workspace (some id) rows)
            ≡ some (settled_status v (attempt v (replies k))))
  run-SettlesAt workspace id rows c on real url found =
      let (k, (low, high, before, last, e)) = retry-SettlesAt v replies client.max_retries 1 in
      let posted = post-retry url ∙ e in
      let ran = run-engine workspace id rows c (attempt v (replies k)) on real found posted in
      (
        k,
        (low, high, before, last, posted),
        ran,
        ap status_code ran ∙ outcome_for-status v c (attempt v (replies k)),
      )
