-- ===== src/Reports.antt =====
-- Reports and media kits (backend_core/apps/reports/callbacks.py): what a callback reads and the asset
-- that it creates.
pub mod Callbacks
pub mod Handler
pub mod Requests
use moment_flow.Common.{
  ℕ, suc, ◌==◌, Bool, true, false, ◌&&◌, not, Option, none, some, [], ◌∷◌, Text, str, is_blank,
  text_eq, find?, update_where, get_or_default, is_some, if◌then◌else◌,
}
use moment_flow.Store.{Env, Db}
use moment_flow.Store.Content.{Asset, AssetType}
use moment_flow.Store.Jobs.{Job}
use moment_flow.Store.Log.{MetaValue, Metadata, set_default, merge}
use moment_flow.Store.Reports.{Report, MediaKit}
use moment_flow.Payload.{AssetData, Payload}
use moment_flow.Jobs.{Callback}

-- `_resolve`: the job is about a row of this type, under an id that is a UUID
abbrev pub is_about : Env → Text → Job → Bool
is_about env entity_type j =
    text_eq j.related_entity_type entity_type && env.is_uuid j.related_entity_id

unfoldable pub resolve_report : Env → Job → Db → Option Report
resolve_report env j db =
    if is_about env (str "report") j
    then find? (λ r. text_eq (env.uuid_text r.id) j.related_entity_id) db.reports
    else none

unfoldable pub resolve_media_kit : Env → Job → Db → Option MediaKit
resolve_media_kit env j db =
    if is_about env (str "media_kit") j
    then find? (λ k. text_eq (env.uuid_text k.id) j.related_entity_id) db.media_kits
    else none

-- `_asset_data`, `none` where it is empty
unfoldable pub asset_data : Option Payload → Option AssetData
asset_data none = none
asset_data (some p) = let a = get_or_default p.asset p.itself in if a.is_empty then none else some a

abbrev pub default_text : Text → Option Text → Metadata → Metadata
default_text key none meta = meta
default_text key (some t) meta =
    if is_blank t then meta else set_default key (MetaValue.text t) meta

-- `_create_asset`: the row
abbrev pub new_asset : ℕ → AssetType → AssetData → Option ℕ → Db → Asset
new_asset ws ty a created_by db = record {
  id = db.drawn;
  workspace = ws;
  asset_type = ty;
  storage_provider = get_or_default a.storage_provider (str "local");
  bucket = get_or_default a.bucket [];
  storage_key = get_or_default a.storage_key [];
  file_name = get_or_default a.file_name [];
  mime_type = get_or_default a.mime_type [];
  file_size_bytes = a.file_size_bytes;
  width = a.width;
  height = a.height;
  checksum = get_or_default a.checksum [];
  public_url = get_or_default a.public_url [];
  created_by = created_by;
  metadata = default_text (str "title") a.title (default_text (str "format") a.format a.metadata);
}

-- The asset that an entity has afterwards: its own, or else one created from the data.
unfoldable pub link_asset :
    ℕ → AssetType → Option AssetData → Option ℕ → Option ℕ → Db → Option ℕ × Db
link_asset ws ty given created_by (some id) db = (some id, db)
link_asset ws ty none created_by none db = (none, db)
link_asset ws ty (some a) created_by none db = (
  some db.drawn,
  record db { drawn = suc db.drawn; assets = new_asset ws ty a created_by db ∷ db.assets },
)

-- `{**metadata, **result["metadata"]}` where the result has a mapping there
abbrev pub with_result : Option Payload → Metadata → Metadata
with_result none meta = meta
with_result (some p) meta = elim p.metadata [ some m ↦ merge meta m | none ↦ meta ]

-- `_error_message`
abbrev pub error_message : Callback Payload → Text
error_message cb = if is_blank cb.message then get_or_default cb.error [] else cb.message

abbrev pub save_report : ℕ → (Report → Report) → Db → Db
save_report id f db = record db { reports = update_where (λ r. r.id == id) f db.reports }

abbrev pub save_media_kit : ℕ → (MediaKit → MediaKit) → Db → Db
save_media_kit id f db = record db { media_kits = update_where (λ k. k.id == id) f db.media_kits }
