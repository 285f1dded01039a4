-- ===== src/Content/Stored.antt =====
-- What an upsert of an output leaves in the table under the output's key (content/callbacks.py).
use moment_flow.Common.{
  ℕ, ==_refl, ==_iff, ◌≡◌, refl, ap, ◌∙◌, inl, inr, true, false, Option, none, some, [], ◌∷◌, ◌++◌,
  Text, str, is_blank, text_eq_refl, get_or_default, arith, Option-cases,
}
use moment_flow.Store.{Env, Db}
use moment_flow.Store.Content.{PackRequest, Output}
use moment_flow.Store.Log.{MetaValue, Metadata, get, put}
use moment_flow.Payload.{OutputData}
use moment_flow.Content.Outputs.{external_key, output_key, given}
use moment_flow.Content.Upserts.{
  filled_output, attach_asset, blank_output, save_new, save_existing, upsert_resolved,
}
use moment_flow.Content.Rebuilt.{
  is_keyed, find_last, replaced, replaced-last, last-keyed, pushed-last,
}

keyed-request :
    (request : ℕ) (key : Text) (o : Output)
    → is_keyed request key o ≡ true
    → o.content_pack_request ≡ request
keyed-request request key o h = ground (arith, ==_iff o.content_pack_request request)

get-put : (k : Text) (v : MetaValue) (d : Metadata) → get k (put k v d) ≡ some v
unfolding get put
get-put k v [] = rw (text_eq_refl k) refl
get-put k v ((j, w) ∷ d) = ground (arith, get-put k v d)

external_key-put :
    (key : Text) (d : Metadata)
    → is_blank key ≡ false
    → external_key (put (str "external_output_key") (MetaValue.text key) d) ≡ some key
unfolding external_key
external_key-put key d h =
    ground (arith, get-put (str "external_output_key") (MetaValue.text key) d)

nonblank-joined : (a b : Text) (c : ℕ) → is_blank (a ++ (c ∷ b)) ≡ false
nonblank-joined [] b c = refl
nonblank-joined (x ∷ a) b c = refl

key-nonblank :
    (id : Option Text) (joined : Text)
    → is_blank joined ≡ false
    → is_blank (elim (given id) [ some key ↦ key | none ↦ joined ]) ≡ false
key-nonblank none joined h = h
key-nonblank (some []) joined h = h
key-nonblank (some (c ∷ t)) joined h = refl

pub output_key-nonblank :
    (env : Env) (o : OutputData) (index : ℕ) → is_blank (output_key env o index) ≡ false
unfolding output_key
output_key-nonblank env o index =
    key-nonblank o.id _ (nonblank-joined (get_or_default o.output_type []) _ b'|')

attach_asset-kept :
    (request : PackRequest) (o : OutputData) (out : Output) (db : Db)
    → let (out', db') = attach_asset request o out db in
      (out'.id ≡ out.id)
      × (out'.content_pack_request ≡ out.content_pack_request)
      × (out'.metadata ≡ out.metadata)
      × (db'.outputs ≡ db.outputs)
unfolding attach_asset
attach_asset-kept request o out db = ground arith

module _ (request : PackRequest) (o : OutputData) (key : Text) where
  filled-is_keyed :
      (out row : Output)
      → is_blank key ≡ false
      → out.content_pack_request ≡ request.id
      → row.content_pack_request ≡ out.content_pack_request
      → row.metadata ≡ (filled_output o key out).metadata
      → is_keyed request.id key row ≡ true
  filled-is_keyed out row h mine same kept =
      rw
        (
          same,
          mine,
          ==_refl request.id,
          ap external_key kept ∙ external_key-put key _ h,
          text_eq_refl key,
        )
        refl

  saved_existing-last :
      (old : Output) (db : Db)
      → is_blank key ≡ false
      → find_last request.id key db.outputs ≡ some old
      → let (out, db') = save_existing request o key old db in
        find_last request.id key db'.outputs ≡ some out
  unfolding save_existing
  saved_existing-last old db h found =
      let filled = filled_output o key old in
      let (same, mine, kept, rows) = attach_asset-kept request o filled db in
      let out = (attach_asset request o filled db).0 in
      ap (λ os. find_last request.id key (replaced out os)) rows
      ∙ replaced-last request.id key out db.outputs old found same (
          filled-is_keyed old out h
            (keyed-request request.id key old (last-keyed request.id key old db.outputs old found))
            mine kept)

  saved_new-last :
      (template : ℕ) (db : Db)
      → is_blank key ≡ false
      → find_last request.id key db.outputs ≡ none
      → let (out, db') = save_new request o key template db in
        find_last request.id key db'.outputs ≡ some out
  unfolding save_new
  saved_new-last template db h found =
      let blank = blank_output request template db in
      let (same, mine, kept, rows) = attach_asset-kept request o (filled_output o key blank) db in
      let (saved, db') = save_new request o key template db in
      ap (λ os. find_last request.id key (saved ∷ os)) rows
      ∙ pushed-last request.id key saved db.outputs found
          (filled-is_keyed blank saved h refl mine kept)

  -- What an upsert returns is what the rebuilt mapping holds under its key.
  pub upsert_resolved-last :
      (template : Option ℕ) (db : Db) (out : Output)
      → is_blank key ≡ false
      → let old = find_last request.id key db.outputs in
        let (r, db') = upsert_resolved request o key old template db in
        r ≡ some out → find_last request.id key db'.outputs ≡ some out
  unfolding upsert_resolved
  upsert_resolved-last template db out h =
      elim (Option-cases (find_last request.id key db.outputs)) [
        | inr (old, e) ↦ ground (arith, saved_existing-last old db)
        | inl n ↦ elim (Option-cases template) [
          | inl absent ↦ ground arith
          | inr (t, present) ↦ ground (arith, saved_new-last t db)
        ]
      ]
