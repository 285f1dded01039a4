-- ===== src/Content/Upserts.antt =====
-- The rows of the outputs: made or replaced by their key, and counted (content/callbacks.py).
use moment_flow.Common.{
  ℕ, suc, ◌==◌, Bool, ◌&&◌, not, Option, none, some, List, [], ◌∷◌, Text, str, update_where,
  or_else, get_or_default, is_some, if◌then◌else◌,
}
use moment_flow.Store.{Env, Db}
use moment_flow.Store.Content.{PackRequest, Output, OutputStatus}
use moment_flow.Store.Log.{MetaValue, put, merge}
use moment_flow.Store.Exec.{ok, err, Exec}
use moment_flow.Payload.{AssetData, OutputData}
use moment_flow.Content.Outputs.{
  Keyed, find_key, put_key, output_key, resolve_template, output_status, is_completed, is_failed,
  output_asset, insert_asset, active_version,
}

-- `ContentOutput(…)`, before its fields are set from the data
abbrev pub blank_output : PackRequest → ℕ → Db → Output
blank_output request template db = record {
  id = db.drawn;
  workspace = request.workspace;
  campaign = request.campaign.id;
  track = or_else request.track request.campaign.track;
  artist = or_else request.artist request.campaign.artist;
  content_pack_request = request.id;
  template = template;
  template_version = active_version template db;
  output_type = [];
  format = [];
  status = OutputStatus.queued;
  title = [];
  caption = [];
  cta = [];
  storage_asset = none;
  created_by = request.requested_by;
  metadata = [];
}

-- The fields that `_upsert_output` sets from the data.
abbrev pub filled_output : OutputData → Text → Output → Output
filled_output o key out = record out {
  output_type = get_or_default o.output_type out.output_type;
  format = get_or_default o.format out.format;
  status = output_status o.status;
  title = get_or_default o.title out.title;
  caption = get_or_default o.caption out.caption;
  cta = get_or_default o.cta out.cta;
  metadata = put (str "external_output_key") (MetaValue.text key) (merge out.metadata o.metadata);
}

abbrev pub is_attached : AssetData → Output → Bool
is_attached a out = not a.is_empty && is_completed out.status && not (is_some out.storage_asset)

-- The asset of a completed output that has none yet.
unfoldable pub attach_asset : PackRequest → OutputData → Output → Db → Output × Db
attach_asset request o out db = elim o.asset [
  | none ↦ (out, db)
  | some a ↦
      if is_attached a out
      then (
        record out { storage_asset = some db.drawn },
        insert_asset (output_asset request a db) db,
      )
      else (out, db)
]

-- `output.save()` of a new output, and of one that has its row
abbrev pub insert_output : Output → Db → Db
insert_output out db = record db { drawn = suc db.drawn; outputs = out ∷ db.outputs }

abbrev pub replace_output : Output → Db → Db
replace_output out db = record db {
  outputs = update_where (λ r. r.id == out.id) (λ _. out) db.outputs;
}

-- A new output draws its identifier with its row, after its asset.
unfoldable pub save_new : PackRequest → OutputData → Text → ℕ → Db → Output × Db
save_new request o key template db =
    let (out, db') =
      attach_asset request o (filled_output o key (blank_output request template db)) db in
    let saved = record out { id = db'.drawn } in (saved, insert_output saved db')

unfoldable pub save_existing : PackRequest → OutputData → Text → Output → Db → Output × Db
save_existing request o key old db =
    let (out, db') = attach_asset request o (filled_output o key old) db in
    (out, replace_output out db')

-- `_upsert_output` after the lookups: `none` where there is neither a row nor a template
unfoldable pub upsert_resolved :
    PackRequest → OutputData → Text → Option Output → Option ℕ → Db → Option Output × Db
upsert_resolved request o key (some old) template db =
    let (out, db') = save_existing request o key old db in (some out, db')
upsert_resolved request o key none (some template) db =
    let (out, db') = save_new request o key template db in (some out, db')
upsert_resolved request o key none none db = (none, db)

unfoldable pub upsert_output :
    Env → PackRequest → OutputData → ℕ → Keyed → Exec Db (Option Output × Keyed)
upsert_output env request o index m db =
    let key = output_key env o index in
    elim (resolve_template env request o db) [
      | err e ↦ (err e, db)
      | ok template ↦
          let (out, db') = upsert_resolved request o key (find_key key m) template db in
          (ok (out, elim out [ some out' ↦ put_key key out' m | none ↦ m ]), db')
    ]

-- The counts of the loop.
pub record Tally : Type 0 where
  pub completed : ℕ
  pub failed : ℕ
  pub skipped : ℕ

abbrev pub count_output : Option Output → Tally → Tally
count_output none t = record t { skipped = suc t.skipped }
count_output (some out) t =
    if is_completed out.status
    then record t { completed = suc t.completed }
    else if is_failed out.status
    then record t { failed = suc t.failed }
    else t

-- The loop of `_handle_success` over the outputs.
unfoldable pub process_outputs :
    Env → PackRequest → List OutputData → ℕ → Keyed → Tally → Exec Db Tally
process_outputs env request [] index m t db = (ok t, db)
process_outputs env request (o ∷ os) index m t db =
    let (r, db') = upsert_output env request o index m db in
    elim r [
      | err e ↦ (err e, db')
      | ok (out, m') ↦ process_outputs env request os (suc index) m' (count_output out t) db'
    ]
