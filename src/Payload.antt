-- ===== src/Payload.antt =====
-- What a renderer reports back (`result` of a callback), by the fields that content/callbacks.py and
-- reports/callbacks.py read. A field is `none` where the key is absent.
use moment_flow.Common.{ℕ, Bool, Option, List, Text}
use moment_flow.Store.Log.{Metadata}

-- A mapping read as an asset; `is_empty` where it has no key at all.
pub record AssetData : Type 0 where
  pub is_empty : Bool
  pub storage_provider : Option Text
  pub bucket : Option Text
  pub storage_key : Option Text
  pub file_name : Option Text
  pub mime_type : Option Text
  pub file_size_bytes : Option ℕ
  pub width : Option ℕ
  pub height : Option ℕ
  pub checksum : Option Text
  pub public_url : Option Text
  pub format : Option Text
  pub title : Option Text
  pub metadata : Metadata

-- One of the `outputs`; `id` is the text of the value.
pub record OutputData : Type 0 where
  pub id : Option Text
  pub template_id : Option Text
  pub template_key : Option Text
  pub output_type : Option Text
  pub format : Option Text
  pub status : Option Text
  pub title : Option Text
  pub caption : Option Text
  pub cta : Option Text
  pub required : Bool
  pub asset : Option AssetData
  pub metadata : Metadata

-- `result`: its outputs, its `asset` where that is a mapping, the result itself read as an asset,
-- and its `metadata` where that is a mapping.
pub record Payload : Type 0 where
  pub outputs : List OutputData
  pub asset : Option AssetData
  pub itself : AssetData
  pub metadata : Option Metadata
