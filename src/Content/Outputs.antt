-- ===== src/Content/Outputs.antt =====
-- The outputs that a renderer delivers (content/callbacks.py): one row for each key, with its asset.
use moment_flow.Common.{
  ℕ, suc, ◌==◌, Bool, true, false, ◌&&◌, Option, none, some, List, [], ◌∷◌, ◌++◌, Text, str,
  is_blank, text_eq, find?, or_else, get_or_default, if◌then◌else◌,
}
use moment_flow.Store.{Env, Db}
use moment_flow.Store.Content.{PackRequest, Output, OutputStatus, Asset, AssetType, TemplateStatus}
use moment_flow.Store.Log.{MetaValue, Metadata, get}
use moment_flow.Store.Exec.{Error, Result, ok, err}
use moment_flow.Payload.{AssetData, OutputData}

-- `existing_by_key`: the outputs of the request by their external key, as a mapping.
abbrev pub Keyed : Type 0
Keyed = List (Text × Output)

unfoldable pub find_key : Text → Keyed → Option Output
find_key key [] = none
find_key key ((k, o) ∷ m) = if text_eq k key then some o else find_key key m

-- `mapping[key] = output`
unfoldable pub put_key : Text → Output → Keyed → Keyed
put_key key o [] = (key, o) ∷ []
put_key key o ((k, p) ∷ m) = if text_eq k key then (k, o) ∷ m else (k, p) ∷ put_key key o m

-- `(output.metadata or {}).get("external_output_key")`, where it is a text that is not empty
unfoldable pub external_key : Metadata → Option Text
external_key meta = elim (get (str "external_output_key") meta) [
  | some (MetaValue.text t) ↦ if is_blank t then none else some t
  | _ ↦ none
]

abbrev pub index_output : Output → Keyed → Keyed
index_output o m = elim (external_key o.metadata) [ some key ↦ put_key key o m | none ↦ m ]

-- `_existing_outputs_by_key`, in the order of the table
unfoldable pub existing_outputs : ℕ → List Output → Keyed → Keyed
existing_outputs request [] m = m
existing_outputs request (o ∷ os) m =
    existing_outputs request os (if o.content_pack_request == request then index_output o m else m)

-- A text that is present and not empty.
abbrev pub given : Option Text → Option Text
given none = none
given (some t) = if is_blank t then none else some t

-- `_output_key`
unfoldable pub output_key : Env → OutputData → ℕ → Text
output_key env o index = elim (given o.id) [
  | some id ↦ id
  | none ↦
      get_or_default o.output_type []
      ++ (b'|' ∷ (get_or_default o.template_key [] ++ (b'|' ∷ env.number_text index)))
]

abbrev pub by_key : Option Text → Db → Option ℕ
by_key none db = none
by_key (some key) db = elim (find? (λ t. text_eq t.template_key key) db.templates) [
  | some t ↦ some t.id
  | none ↦ none
]

abbrev pub by_type : ℕ → Option Text → Db → Option ℕ
by_type pack none db = none
by_type pack (some ty) db =
    elim (find? (λ l. l.content_pack == pack && text_eq l.output_type ty) db.pack_templates) [
      | some l ↦ some l.template
      | none ↦ none
    ]

-- `_resolve_template` after the lookup by id
abbrev pub by_key_or_type : PackRequest → OutputData → Db → Option ℕ
by_key_or_type request o db =
    or_else (by_key (given o.template_key) db)
      (by_type request.content_pack (given o.output_type) db)

-- `_resolve_template`: an id that is no UUID raises
unfoldable pub resolve_template : Env → PackRequest → OutputData → Db → Result (Option ℕ)
resolve_template env request o db = elim (given o.template_id) [
  | none ↦ ok (by_key_or_type request o db)
  | some id ↦
      if env.is_uuid id
      then elim (find? (λ t. text_eq (env.uuid_text t.id) id) db.templates) [
        | some t ↦ ok (some t.id)
        | none ↦ ok (by_key_or_type request o db)
      ]
      else err (Error.validation_error (str "template_id"))
]

-- `_OUTPUT_STATUS.get(status, COMPLETED)`
unfoldable pub output_status : Option Text → OutputStatus
output_status none = OutputStatus.completed
output_status (some s) =
    if text_eq s (str "failed")
    then OutputStatus.failed
    else if text_eq s (str "processing")
    then OutputStatus.processing
    else if text_eq s (str "rendering")
    then OutputStatus.rendering
    else if text_eq s (str "queued")
    then OutputStatus.queued
    else OutputStatus.completed

abbrev pub is_completed : OutputStatus → Bool
is_completed OutputStatus.completed = true
is_completed _ = false

abbrev pub is_failed : OutputStatus → Bool
is_failed OutputStatus.failed = true
is_failed _ = false

-- `_create_asset`: the row
abbrev pub output_asset : PackRequest → AssetData → Db → Asset
output_asset request a db = record {
  id = db.drawn;
  workspace = request.workspace;
  asset_type = AssetType.generated_output;
  storage_provider = get_or_default a.storage_provider (str "local");
  bucket = get_or_default a.bucket [];
  storage_key = get_or_default a.storage_key [];
  file_name = get_or_default a.file_name [];
  mime_type = get_or_default a.mime_type [];
  file_size_bytes = a.file_size_bytes;
  width = a.width;
  height = a.height;
  checksum = get_or_default a.checksum [];
  public_url = get_or_default a.public_url [];
  created_by = request.requested_by;
  metadata = a.metadata;
}

abbrev pub insert_asset : Asset → Db → Db
insert_asset a db = record db { drawn = suc db.drawn; assets = a ∷ db.assets }

abbrev pub is_active : TemplateStatus → Bool
is_active TemplateStatus.active = true
is_active _ = false

-- The newest active version of the template.
abbrev pub active_version : ℕ → Db → Option ℕ
active_version template db =
    elim (find? (λ v. v.template == template && is_active v.status) db.template_versions) [
      | some v ↦ some v.id
      | none ↦ none
    ]
