-- ===== src/Campaigns/Client.antt =====
-- The client of the intelligence engine (backend_core/apps/integrations_bridge/intelligence_sync.py)
-- over the internal one (clients.py there): what an attempt makes of a reply, and which failures are
-- tried again.
use moment_flow.Common.{
  ℕ, zero, suc, leb, ltb, Bool, true, false, ◌&&◌, Option, none, some, [], ◌∷◌, Text, str,
  if◌then◌else◌,
}

-- Values that a JSON text stands for: `json.loads`, `{}`, `get` of a dictionary (`none` for any other
-- value), truth, `str`, and equality with a text.
pub record Values (J : Type 0) : Type 0 where
  pub loads : Text → Option J
  pub empty : J
  pub get : J → Option (Text → Option J)
  pub is_truthy : J → Bool
  pub text_of : J → Text
  pub is_text : J → Text → Bool

-- What the transport does with a request: the body of a reply as text, or a failure that the client
-- catches. An exception of the opener that is no `OSError` escapes it, and is not modelled.
pub data Reply : Type 0 where
  replied : Text → Reply
  http_error : ℕ → Text → Reply
  timed_out unreached : Reply

-- The internal client's errors, and a value.
pub data Posted (J : Type 0) : Type 0 where
  posted : J → Posted J
  http_failure : ℕ → Text → Posted J
  post_timeout post_unreachable invalid_json : Posted J

-- The engine client's errors. A response error has the status, the engine's code and its message,
-- which is empty where the default message stands.
pub data EngineError : Type 0 where
  timeout unreachable protocol_error : EngineError
  response_error : ℕ → Text → Text → EngineError

-- The fields of an answer as they came; `none` for one that takes its default.
pub record EngineResult (J : Type 0) : Type 0 where
  pub status : Option J
  pub engine : Option J
  pub engine_version : Option J
  pub request_id : Option J
  pub workspace_id : Option J
  pub result : Option J
  pub explanations : Option J
  pub warnings : Option J
  pub metadata : Option J
  pub raw : J

pub data Outcome (J : Type 0) : Type 0 where
  answered : EngineResult J → Outcome J
  raised : EngineError → Outcome J

pub record EngineClient : Type 0 where
  pub base_url : Text
  pub max_retries : ℕ

-- `is_server_error`
unfoldable pub is_server_error : ℕ → Bool
is_server_error code = leb 500 code && ltb code 600

-- `error_code or "http_error"`
abbrev pub or_http_error : Text → Text
or_http_error [] = str "http_error"
or_http_error (c ∷ cs) = c ∷ cs

module _ {J : Type 0} (v : Values J) where
  -- `post_json`: no body is an empty dictionary
  unfoldable pub post_json : Reply → Posted J
  post_json (Reply.http_error code body) = Posted.http_failure code body
  post_json Reply.timed_out = Posted.post_timeout
  post_json Reply.unreached = Posted.post_unreachable
  post_json (Reply.replied []) = Posted.posted v.empty
  post_json (Reply.replied (c ∷ cs)) = elim (v.loads (c ∷ cs)) [
    | some data_value ↦ Posted.posted data_value
    | none ↦ Posted.invalid_json
  ]

  -- `str(error.get(key) or "")`
  abbrev pub text_or_empty : Option J → Text
  text_or_empty none = []
  text_or_empty (some value) = if v.is_truthy value then v.text_of value else []

  -- `_parse_error_body`
  abbrev pub error_texts : Option (Text → Option J) → Text × Text
  error_texts none = ([], [])
  error_texts (some fields) =
      (text_or_empty (fields (str "code")), text_or_empty (fields (str "message")))

  abbrev pub fields_of : Option J → Option (Text → Option J)
  fields_of none = none
  fields_of (some value) = v.get value

  abbrev pub field_of : Option (Text → Option J) → Text → Option J
  field_of none key = none
  field_of (some fields) key = fields key

  unfoldable pub parse_error_body : Text → Text × Text
  parse_error_body [] = ([], [])
  parse_error_body (c ∷ cs) =
      error_texts (fields_of (field_of (fields_of (v.loads (c ∷ cs))) (str "error")))

  -- `data.get(key) or …`
  abbrev pub truthy : Option J → Option J
  truthy none = none
  truthy (some value) = if v.is_truthy value then some value else none

  -- `from_envelope`
  abbrev pub from_envelope : J → (Text → Option J) → EngineResult J
  from_envelope raw fields = record {
    status = fields (str "status");
    engine = fields (str "engine");
    engine_version = fields (str "engine_version");
    request_id = fields (str "request_id");
    workspace_id = fields (str "workspace_id");
    result = truthy (fields (str "result"));
    explanations = truthy (fields (str "explanations"));
    warnings = truthy (fields (str "warnings"));
    metadata = truthy (fields (str "metadata"));
    raw = raw;
  }

  abbrev pub is_completed : Option J → Bool
  is_completed none = false
  is_completed (some status) = v.is_text status (str "completed")

  -- `_attempt`
  unfoldable pub attempt : Reply → Outcome J
  attempt reply = elim (post_json reply) [
    | Posted.post_timeout ↦ Outcome.raised EngineError.timeout
    | Posted.post_unreachable ↦ Outcome.raised EngineError.unreachable
    | Posted.http_failure code body ↦
        let (error_code, message) = parse_error_body body in
        Outcome.raised (EngineError.response_error code (or_http_error error_code) message)
    | Posted.invalid_json ↦ Outcome.raised EngineError.protocol_error
    | Posted.posted value ↦ elim (v.get value) [
      | none ↦ Outcome.raised EngineError.protocol_error
      | some fields ↦
          if is_completed (fields (str "status"))
          then Outcome.answered (from_envelope value fields)
          else Outcome.raised EngineError.protocol_error
    ]
  ]

  -- What is tried again: no reply, and the engine's own failures.
  unfoldable pub is_transient : EngineError → Bool
  is_transient EngineError.timeout = true
  is_transient EngineError.unreachable = true
  is_transient EngineError.protocol_error = false
  is_transient (EngineError.response_error code error_code message) = is_server_error code

  abbrev pub fails_transiently : Outcome J → Bool
  fails_transiently (Outcome.answered result) = false
  fails_transiently (Outcome.raised e) = is_transient e

  -- The attempts from the n-th on, with so many more after it. The n-th reply is `replies n`.
  unfoldable pub retry : (ℕ → Reply) → ℕ → ℕ → Outcome J
  retry replies zero n = attempt (replies n)
  retry replies (suc more) n =
      let later = retry replies more (suc n) in
      let now = attempt (replies n) in if fails_transiently now then later else now

  -- `post_campaign_intelligence`: the attempts are counted from 1
  unfoldable pub post_campaign_intelligence : EngineClient → (ℕ → Reply) → Outcome J
  post_campaign_intelligence client replies = elim client.base_url [
    | [] ↦ Outcome.raised EngineError.unreachable
    | _ ∷ _ ↦ retry replies client.max_retries 1
  ]
