-- ===== src/Content/Redelivered.antt =====
-- An output that is delivered twice has one row and one asset (content/callbacks.py).
use moment_flow.Common.{
  ℕ, ◌==◌, ◌≡◌, refl, sym, ap, ◌∙◌, Bool, true, false, ◌&&◌, not, Option, none, some, is_some, List,
  [], ◌∷◌, Text, arith, Option-cases, Bool-cases, inl, inr, update_where, map,
}
use moment_flow.Store.{Env, Db}
use moment_flow.Store.Content.{PackRequest, Output}
use moment_flow.Store.Exec.{ok, Result-cases}
use moment_flow.Payload.{AssetData, OutputData}
use moment_flow.Content.Outputs.{
  Keyed, existing_outputs, find_key, put_key, output_key, resolve_template, is_completed,
}
use moment_flow.Content.Kept.{upsert_output-field}
use moment_flow.Content.Rebuilt.{find_last, find_key-rebuilt}
use moment_flow.Content.Stored.{output_key-nonblank, upsert_resolved-last}
use moment_flow.Content.Upserts.{
  filled_output, is_attached, attach_asset, blank_output, replace_output, save_new, save_existing,
  upsert_resolved, upsert_output,
}

&&-false : (b : Bool) → (b && false) ≡ false
&&-false true = refl
&&-false false = refl

-- An output that takes no asset is left as it is.
attach_asset-idle :
    (request : PackRequest) (o : OutputData) (out : Output) (db : Db)
    → ((a : AssetData) → o.asset ≡ some a → is_attached a out ≡ false)
    → attach_asset request o out db ≡ (out, db)
unfolding attach_asset
attach_asset-idle request o out db idle = elim (Option-cases o.asset) [
  | inl n ↦ rw (n, attach_asset) refl
  | inr (a, s) ↦ rw (s, idle a s, attach_asset) refl
]

-- An output that has been through `attach_asset` takes no second asset.
attach_asset-attached :
    (request : PackRequest) (o : OutputData) (out : Output) (db : Db) (a : AssetData)
    → o.asset ≡ some a
    → (not a.is_empty
        && is_completed out.status
        && not (is_some (attach_asset request o out db).0.storage_asset))
      ≡ false
unfolding attach_asset
attach_asset-attached request o out db a s = elim (Bool-cases (is_attached a out)) [
  | inl t ↦ rw (s, t, attach_asset) (&&-false _)
  | inr f ↦ rw (s, f, attach_asset) f
]

-- An asset is attached once.
attach_asset-again :
    (request : PackRequest) (o : OutputData) (key : Text) (old : Output) (db : Db) (id : ℕ)
    (db' : Db)
    → let again =
        filled_output o key
          (record (attach_asset request o (filled_output o key old) db).0 { id = id }) in
      attach_asset request o again db' ≡ (again, db')
attach_asset-again request o key old db id db' =
    attach_asset-idle request o _ db' (attach_asset-attached request o (filled_output o key old) db)

replace_output-ids :
    (out : Output) (os : List Output)
    → map (λ r. r.id) (update_where (λ r. r.id == out.id) (λ _. out) os) ≡ map (λ r. r.id) os
replace_output-ids out [] = refl
replace_output-ids out (r ∷ os) = ground (arith, replace_output-ids out os)

resolve_template-tables :
    (env : Env) (request : PackRequest) (o : OutputData) (a b : Db)
    → a.templates ≡ b.templates
    → a.pack_templates ≡ b.pack_templates
    → resolve_template env request o a ≡ resolve_template env request o b
unfolding resolve_template
resolve_template-tables env request o a b t p = ground (arith, t, p)

module _ (request : PackRequest) (o : OutputData) (key : Text) where
  save_existing-again :
      (old : Output) (db db' : Db)
      → let out = (save_existing request o key old db).0 in
        save_existing request o key out db'
        ≡ (filled_output o key out, replace_output (filled_output o key out) db')
  unfolding save_existing
  save_existing-again old db db' =
      ap (λ r. (r.0, replace_output r.0 r.1)) (attach_asset-again request o key old db _ db')

  save_new-again :
      (template : ℕ) (db db' : Db)
      → let out = (save_new request o key template db).0 in
        save_existing request o key out db'
        ≡ (filled_output o key out, replace_output (filled_output o key out) db')
  unfolding save_new save_existing
  save_new-again template db db' =
      ap (λ r. (r.0, replace_output r.0 r.1))
        (attach_asset-again request o key (blank_output request template db) db _ db')

  upsert_resolved-again :
      (old : Option Output) (template template' : Option ℕ) (db db' : Db) (out : Output)
      → (upsert_resolved request o key old template db).0 ≡ some out
      → upsert_resolved request o key (some out) template' db'
        ≡ (some (filled_output o key out), replace_output (filled_output o key out) db')
  unfolding upsert_resolved
  upsert_resolved-again (some old) template template' db db' out h =
      ground (arith, save_existing-again old db db')
  upsert_resolved-again none (some template) template' db db' out h =
      ground (arith, save_new-again template db db')
  upsert_resolved-again none none template' db db' out h = ground arith

-- What a stored output says of its call.
upsert_output-stored :
    (env : Env) (request : PackRequest) (o : OutputData) (index : ℕ) (m m' : Keyed) (db db' : Db)
    (out : Output)
    → upsert_output env request o index m db ≡ (ok (some out, m'), db')
    → let key = output_key env o index in
      (template : Option ℕ) × (resolve_template env request o db ≡ ok template)
      × ((upsert_resolved request o key (find_key key m) template db).0 ≡ some out)
      × (m' ≡ put_key key out m)
unfolding upsert_output
upsert_output-stored env request o index m m' db db' out h =
    elim (Result-cases (resolve_template env request o db)) [
      | inl (t, e) ↦ (t, e, ground arith, ground arith)
      | inr (x, e) ↦ ground arith
    ]

upsert_output-state :
    (env : Env) (request : PackRequest) (o : OutputData) (index : ℕ) (m : Keyed) (db : Db)
    (template : Option ℕ)
    → resolve_template env request o db ≡ ok template
    → let key = output_key env o index in
      (upsert_output env request o index m db).1
      ≡ (upsert_resolved request o key (find_key key m) template db).1
unfolding upsert_output
upsert_output-state env request o index m db template e = rw (e, upsert_output) refl

-- An output that was stored and is delivered again, with the mapping of the outputs that each
-- delivery rebuilds from the database it finds, is found under its key: its own row is replaced, with
-- the same identifiers in the table, and neither a row nor an asset is added.
pub upsert_output_redelivered :
    (env : Env) (request : PackRequest) (o : OutputData) (index : ℕ) (m' : Keyed) (db db' : Db)
    (out : Output)
    → upsert_output env request o index (existing_outputs request.id db.outputs []) db
      ≡ (ok (some out, m'), db')
    → let again =
        upsert_output env request o index (existing_outputs request.id db'.outputs []) db' in
      (again.1 ≡ replace_output (filled_output o (output_key env o index) out) db')
      × (map (λ r. r.id) again.1.outputs ≡ map (λ r. r.id) db'.outputs)
      × (again.1.assets ≡ db'.assets)
      × (again.1.drawn ≡ db'.drawn)
upsert_output_redelivered env request o index m' db db' out h =
    let key = output_key env o index in
    let m = existing_outputs request.id db.outputs [] in
    let old = find_last request.id key db.outputs in
    let (template, e, kept, indexed) = upsert_output-stored env request o index m m' db db' out h in
    let held = find_key-rebuilt request.id key db.outputs in
    let stored = ap (λ x. (upsert_resolved request o key x template db).0) (sym held) ∙ kept in
    let left =
      sym (ap (λ r. r.1) h)
      ∙ upsert_output-state env request o index m db template e
      ∙ ap (λ x. (upsert_resolved request o key x template db).1) held in
    let resolved =
      resolve_template-tables env request o db' db
        (ap (λ r. r.1.templates) (sym h)
          ∙ upsert_output-field (λ x. x.templates) (λ x a b c. refl) env request o index m db)
        (ap (λ r. r.1.pack_templates) (sym h)
          ∙ upsert_output-field (λ x. x.pack_templates) (λ x a b c. refl) env request o index m
              db) in
    let found =
      find_key-rebuilt request.id key db'.outputs
      ∙ ap (λ x. find_last request.id key x.outputs) left
      ∙ upsert_resolved-last request o key template db out (output_key-nonblank env o index)
          stored in
    let replaced =
      upsert_output-state env request o index (existing_outputs request.id db'.outputs []) db'
        template (resolved ∙ e)
      ∙ ap (λ x. (upsert_resolved request o key x template db').1) found
      ∙ ap (λ r. r.1)
          (upsert_resolved-again request o key old template template db db' out stored) in
    (
      replaced,
      ap (λ x. map (λ r. r.id) x.outputs) replaced
          ∙ replace_output-ids (filled_output o key out) db'.outputs,
      ap (λ x. x.assets) replaced,
      ap (λ x. x.drawn) replaced,
    )
