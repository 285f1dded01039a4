-- ===== src/Billing/Signature.antt =====
-- The Stripe signature of billing/webhooks.py. HMAC-SHA256, `int` of a text and the encoding of a
-- text are the standard library's, so parameters.
pub mod Header
pub mod Verified
use moment_flow.Common.{
  ℕ, ◌+◌, ◌*◌, ℤ, pos, negsuc, negate, ◌+ℤ◌, ltb_ℤ, leb, ◌==◌, Bool, true, false, ◌&&◌, ◌||◌, not,
  Option, none, some, List, [], ◌∷◌, ◌++◌, Text, str, is_blank, text_eq, strip, break_at, split_on,
  if◌then◌else◌,
}
use moment_flow.Store.Exec.{Error, Result, ok, err}

pub record Crypto : Type 0 where
  -- `s.encode()`
  pub encode : Text → List ℕ
  -- `hmac.new(key, message, sha256).hexdigest()`
  pub hmac_hex : List ℕ → List ℕ → Text
  -- `int(s)`, `none` where it raises
  pub parse_int : Text → Option ℤ

pub record SignatureHeader : Type 0 where
  pub t : Option Text
  pub v1 : List Text

-- One part of the header, with what the parts before it gave.
unfoldable pub add_pair : Text → Text → SignatureHeader → SignatureHeader
add_pair key value h =
    if text_eq key (str "t")
    then record h { t = some value }
    else if text_eq key (str "v1")
    then record h { v1 = h.v1 ++ value ∷ [] }
    else h

unfoldable pub add_part : Text → SignatureHeader → SignatureHeader
add_part part h =
    let (key, rest) = break_at b'=' part in
    elim rest [ none ↦ h | some value ↦ add_pair (strip key) (strip value) h ]

unfoldable pub add_parts : List Text → SignatureHeader → SignatureHeader
add_parts [] h = h
add_parts (p ∷ ps) h = add_parts ps (add_part p h)

unfoldable pub parse_signature_header : Text → SignatureHeader
parse_signature_header header = add_parts (split_on b',' header) (record { t = none; v1 = [] })

unfoldable pub is_ascii : Text → Bool
is_ascii [] = true
is_ascii (c ∷ s) = leb c 127 && is_ascii s

-- `any(hmac.compare_digest(expected, c) for c in signatures)`: `compare_digest` raises on a text that
-- is not ASCII, and `any` stops at the first match.
unfoldable pub any_match : Text → List Text → Result Bool
any_match expected [] = ok false
any_match expected (c ∷ cs) =
    let rest = any_match expected cs in
    if is_ascii expected && is_ascii c
    then (if text_eq expected c then ok true else rest)
    else err Error.type_error

-- `abs(a)`
abbrev pub abs : ℤ → ℤ
abs a = if ltb_ℤ a (pos 0) then negate a else a

abbrev pub no_timestamp : Option Text → Bool
no_timestamp none = true
no_timestamp (some t) = is_blank t

abbrev pub no_signatures : List Text → Bool
no_signatures [] = true
no_signatures (s ∷ ss) = false

-- Seconds as microseconds.
abbrev pub micros : ℤ → ℤ
micros (pos n) = pos (n * 1000000)
micros (negsuc n) = negate (pos ((n + 1) * 1000000))

-- `not timestamp or not signatures`
abbrev pub is_malformed : SignatureHeader → Bool
is_malformed h = no_timestamp h.t || no_signatures h.v1

-- Times in microseconds, since `time.time()` has a fraction.
abbrev pub is_stale : ℕ → ℤ → ℕ → Bool
is_stale now_us timestamp tolerance =
    not (tolerance == 0)
    && ltb_ℤ (pos (tolerance * 1000000)) (abs (pos now_us +ℤ negate (micros timestamp)))

unfoldable pub expected_signature : Crypto → Text → Text → List ℕ → Text
expected_signature c secret timestamp payload =
    c.hmac_hex (c.encode secret) (c.encode (timestamp ++ str ".") ++ payload)

-- Below the check of the header.
unfoldable pub verify_timestamp : Crypto → ℕ → List ℕ → Text → ℕ → Text → List Text → Result Bool
verify_timestamp c now_us payload secret tolerance timestamp signatures =
    elim (c.parse_int timestamp) [
      | none ↦ err Error.signature_error
      | some n ↦
          if is_stale now_us n tolerance
          then err Error.signature_error
          else any_match (expected_signature c secret timestamp payload) signatures
    ]

unfoldable pub verify_stripe_signature : Crypto → ℕ → List ℕ → Text → Text → ℕ → Result Bool
verify_stripe_signature c now_us payload header secret tolerance =
    if is_blank secret
    then err Error.signature_error
    else let h = parse_signature_header header in
      if is_malformed h then err Error.signature_error else elim h.t [
        | none ↦ err Error.signature_error
        | some timestamp ↦ verify_timestamp c now_us payload secret tolerance timestamp h.v1
      ]
