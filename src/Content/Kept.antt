-- ===== src/Content/Kept.antt =====
-- The callbacks of content packs as the bridge relies on them, and what they leave alone: jobs other
-- than their own, and the ledger but for one call of it.
use moment_flow.Common.{
  ℕ, suc, ◌≡◌, refl, ◌∙◌, Option, none, some, List, [], ◌∷◌, Text, Option-cases, Bool-cases, inl,
  inr, ◌==◌, update_where,
}
use moment_flow.Store.{Env, Db}
use moment_flow.Store.Content.{PackRequest, Asset, Output}
use moment_flow.Store.Exec.{Result-cases}
use moment_flow.Payload.{OutputData}
use moment_flow.Content.Outputs.{Keyed, output_asset, resolve_template, output_key, find_key}
use moment_flow.Content.Upserts.{
  Tally, count_output, upsert_output, upsert_resolved, save_new, save_existing, attach_asset,
  is_attached, process_outputs, filled_output, blank_output,
}

-- Parts of the database that outputs and assets are not.
module _ {F : Type 0} (field : Db → F)
    (apart : (db : Db) (drawn : ℕ) (assets : List Asset) (outputs : List Output)
      → field (record db { drawn = drawn; assets = assets; outputs = outputs }) ≡ field db) where
  attach_asset-field :
      (request : PackRequest) (o : OutputData) (out : Output) (db : Db)
      → field (attach_asset request o out db).1 ≡ field db
  unfolding attach_asset
  attach_asset-field request o out db = elim (Option-cases o.asset) [
    | inl n ↦ rw n refl
    | inr (a, s) ↦ elim (Bool-cases (is_attached a out)) [
      | inl t ↦
          rw (s, t) (apart db (suc db.drawn) (output_asset request a db ∷ db.assets) db.outputs)
      | inr f ↦ rw (s, f) refl
    ]
  ]

  save_new-field :
      (request : PackRequest) (o : OutputData) (key : Text) (template : ℕ) (db : Db)
      → field (save_new request o key template db).1 ≡ field db
  unfolding save_new
  save_new-field request o key template db =
      let out = filled_output o key (blank_output request template db) in
      let (out', db') = attach_asset request o out db in
      apart db' (suc db'.drawn) db'.assets (record out' { id = db'.drawn } ∷ db'.outputs)
      ∙ attach_asset-field request o out db

  save_existing-field :
      (request : PackRequest) (o : OutputData) (key : Text) (old : Output) (db : Db)
      → field (save_existing request o key old db).1 ≡ field db
  unfolding save_existing
  save_existing-field request o key old db =
      let (out', db') = attach_asset request o (filled_output o key old) db in
      apart db' db'.drawn db'.assets (update_where (λ r. r.id == out'.id) (λ _. out') db'.outputs)
      ∙ attach_asset-field request o (filled_output o key old) db

  upsert_resolved-field :
      (request : PackRequest) (o : OutputData) (key : Text) (old : Option Output)
      (template : Option ℕ) (db : Db)
      → field (upsert_resolved request o key old template db).1 ≡ field db
  unfolding upsert_resolved
  upsert_resolved-field request o key (some old) template db =
      save_existing-field request o key old db
  upsert_resolved-field request o key none (some template) db =
      save_new-field request o key template db
  upsert_resolved-field request o key none none db = refl

  pub upsert_output-field :
      (env : Env) (request : PackRequest) (o : OutputData) (index : ℕ) (m : Keyed) (db : Db)
      → field (upsert_output env request o index m db).1 ≡ field db
  unfolding upsert_output
  upsert_output-field env request o index m db =
      elim (Result-cases (resolve_template env request o db)) [
        | inr (e, h) ↦ rw (h, upsert_output) refl
        | inl (t, h) ↦
            rw (h, upsert_output)
              (upsert_resolved-field request o (output_key env o index)
                (find_key (output_key env o index) m) t db)
      ]

  pub process_outputs-field :
      (env : Env) (request : PackRequest) (os : List OutputData) (index : ℕ) (m : Keyed) (t : Tally)
      (db : Db)
      → field (process_outputs env request os index m t db).1 ≡ field db
  unfolding process_outputs
  process_outputs-field env request [] index m t db = refl
  process_outputs-field env request (o ∷ os) index m t db =
      elim (Result-cases (upsert_output env request o index m db).0) [
        | inr (e, h) ↦ rw (h, process_outputs) (upsert_output-field env request o index m db)
        | inl ((out, m'), h) ↦
            rw (h, process_outputs)
              (process_outputs-field env request os (suc index) m' (count_output out t)
                  (upsert_output env request o index m db).1
                ∙ upsert_output-field env request o index m db)
      ]
