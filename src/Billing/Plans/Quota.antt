-- ===== src/Billing/Plans/Quota.antt =====
-- When a quota refuses, and what a change of plan changes.
use moment_flow.Common.{
  ℕ, ℤ, ◌+ℤ◌, ◌≤ℤ◌, ◌≡◌, ◌≢◌, ◌↔◌, ◌⊎◌, inl, inr, Option, none, some, List, [], ◌∷◌, arith, Text,
  find?, Option-cases,
}
use moment_flow.Store.{Env, Db}
use moment_flow.Store.Billing.{Plan, Subscription}
use moment_flow.Store.Exec.{ok}
use moment_flow.Audit.{record_audit_event}
use moment_flow.Billing.Plans.{
  is_current, get_active_subscription, plan_feature, active_plan_feature, get_plan_limit, set_plan,
  feature_limit, change_subscription_plan, audit_plan_change, usage_or_current, within_limit,
  check_workspace_limit,
}

-- The limit and the usage of a feature are both known, and one more `increment` does not fit.
pub record IsOver (env : Env) (ws : ℕ) (key : Text) (increment : ℤ) (given : Option ℤ) (db : Db)
    : Type 0 where
  pub limit : ℤ
  pub count : ℤ
  pub limit_known : get_plan_limit ws key db ≡ some limit
  pub count_known : usage_or_current env ws key given db ≡ some count
  pub over : ¬ (count +ℤ increment ≤ℤ limit)

module _ (env : Env) (ws : ℕ) (key : Text) (increment : ℤ) (given : Option ℤ) (db : Db) where
  check-unknown :
      (get_plan_limit ws key db ≡ none) ⊎ (usage_or_current env ws key given db ≡ none)
      → (check_workspace_limit env ws key increment given db).0 ≡ ok tt
  unfolding check_workspace_limit
  check-unknown h = ground arith

  check-known :
      (limit count : ℤ)
      → get_plan_limit ws key db ≡ some limit
      → usage_or_current env ws key given db ≡ some count
      → check_workspace_limit env ws key increment given db
        ≡ within_limit ws key limit count increment db
  unfolding check_workspace_limit
  check-known limit count l c = ground arith

  refused-IsOver :
      (check_workspace_limit env ws key increment given db).0 ≢ ok tt
      → IsOver env ws key increment given db
  unfolding within_limit
  refused-IsOver refused = elim (Option-cases (get_plan_limit ws key db)) [
    | inl l ↦ absurd (refused (check-unknown (inl l)))
    | inr (limit, l) ↦ elim (Option-cases (usage_or_current env ws key given db)) [
      | inl c ↦ absurd (refused (check-unknown (inr c)))
      | inr (count, c) ↦ record {
        limit = limit;
        count = count;
        limit_known = l;
        count_known = c;
        over = λ fits. refused (rw (check-known limit count l c) (ground arith));
      }
    ]
  ]

  IsOver-refused :
      IsOver env ws key increment given db
      → (check_workspace_limit env ws key increment given db).0 ≢ ok tt
  unfolding within_limit
  IsOver-refused o =
      rw (check-known o.limit o.count o.limit_known o.count_known) (λ e. ground (arith, o.over))

  pub check-keeps : (check_workspace_limit env ws key increment given db).1 ≡ db
  unfolding check_workspace_limit within_limit
  check-keeps = ground arith

  -- The check raises exactly when the plan has a limit, the usage is known, and the usage with the
  -- increment is above the limit; it never writes.
  pub check_workspace_limit_iff :
      let (r, db') = check_workspace_limit env ws key increment given db in
      ((r ≢ ok tt) ↔ IsOver env ws key increment given db) × (db' ≡ db)
  check_workspace_limit_iff = ((refused-IsOver, IsOver-refused), check-keeps)

-- A change of plan rewrites the subscription that is active, wherever it stands.
find?-set_plan :
    (ws plan now : ℕ) (s : Subscription) (ss : List Subscription)
    → find? (is_current ws) ss ≡ some s
    → find? (is_current ws) (set_plan s.id plan now ss)
      ≡ some (record s { plan = plan; updated_at = now })
unfolding set_plan
find?-set_plan ws plan now s [] h = cc
find?-set_plan ws plan now s (x ∷ xs) h = ground (arith, find?-set_plan ws plan now s xs)

-- After a change of plan for a workspace with an active subscription, every feature has the limit
-- that the new plan gives it, whether or not the plan was another before.
pub change_subscription_plan-limit :
    (env : Env) (ws : ℕ) (new_plan : Plan) (actor : Option ℕ) (db : Db) (s : Subscription)
    (key : Text)
    → get_active_subscription ws db ≡ some s
    → get_plan_limit ws key (change_subscription_plan env ws new_plan actor db).1
      ≡ feature_limit (plan_feature new_plan.id key db)
unfolding get_plan_limit active_plan_feature get_active_subscription plan_feature
    change_subscription_plan audit_plan_change record_audit_event
change_subscription_plan-limit env ws new_plan actor db s key h =
    ground (arith, find?-set_plan ws new_plan.id env.now s db.subscriptions)
