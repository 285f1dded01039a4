-- ===== src/Examples/CampaignExamples.antt =====
-- A diagnostic that is asked for over a network that fails once.
use moment_flow.Common.{
  ℕ, ◌==◌, ◌≡◌, refl, true, false, Option, none, some, [], ◌∷◌, Text, str, text_eq, if◌then◌else◌,
}
use moment_flow.Campaigns.{CampaignRow, Switches, load_campaign, outcome_for, run, status_code}
use moment_flow.Campaigns.Client.{Values, Reply, EngineClient, attempt, post_campaign_intelligence}
use moment_flow.Campaigns.Settled.{SettlesAt, settled_status, run-SettlesAt}

-- Every value is a dictionary with a status, kept as its text.
abbrev status_only : Text → Option Text
status_only key = if text_eq key (str "status") then some (str "completed") else none

abbrev values : Values Text
values = record {
  loads = some;
  empty = [];
  get = λ t. some status_only;
  is_truthy = λ t. true;
  text_of = λ t. t;
  is_text = text_eq;
}

abbrev replies : ℕ → Reply
replies n = if n == 1 then Reply.timed_out else Reply.replied (str "{}")

abbrev client : EngineClient
client = record { base_url = str "http://engine"; max_retries = 2 }

abbrev row : CampaignRow
row = record { id = 5; workspace = 7; is_deleted = false }

abbrev switches : Switches
switches = record { enabled = true; dry_run = false }

run-SettlesAt_example :
    (k : ℕ) × SettlesAt values replies 2 1 (post_campaign_intelligence values client replies) k
    × (run values switches client replies 7 (some 5) (row ∷ [])
        ≡ outcome_for values row (attempt values (replies k)))
    × (status_code (run values switches client replies 7 (some 5) (row ∷ []))
        ≡ some (settled_status values (attempt values (replies k))))
unfolding load_campaign
run-SettlesAt_example =
    run-SettlesAt values switches client replies 7 5 (row ∷ []) row refl refl refl refl
