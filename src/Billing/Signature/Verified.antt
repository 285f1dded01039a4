-- ===== src/Billing/Signature/Verified.antt =====
-- What an accepted signature shows, and that a sender with the secret is accepted.
use moment_flow.Common.{
  ℕ, ℤ, ◌≡◌, Bool, true, false, some, List, [], ◌∷◌, ◌||◌, arith, Text, is_blank, text_eq,
  text_eq_refl, Option-cases, inl, inr,
}
use moment_flow.Store.Exec.{ok}
use moment_flow.Billing.Signature.{
  Crypto, parse_signature_header, is_ascii, any_match, is_stale, expected_signature,
  verify_timestamp, verify_stripe_signature,
}
use moment_flow.Billing.Signature.Header.{IsPlain, render_header, parse-render_header}

abbrev pub has_text : Text → List Text → Bool
has_text e [] = false
has_text e (x ∷ xs) = text_eq e x || has_text e xs

any_match-has_text : (e : Text) (xs : List Text) → any_match e xs ≡ ok true → has_text e xs ≡ true
unfolding any_match
any_match-has_text e [] h = cc
any_match-has_text e (x ∷ xs) h = ground (arith, any_match-has_text e xs)

-- What the signed header holds.
pub record IsSigned (c : Crypto) (now_us : ℕ) (payload : List ℕ) (header secret : Text)
    (tolerance : ℕ) : Type 0 where
  pub timestamp : Text
  pub seconds : ℤ
  pub in_header : (parse_signature_header header).t ≡ some timestamp
  pub a_number : c.parse_int timestamp ≡ some seconds
  pub fresh : is_stale now_us seconds tolerance ≡ false
  pub signed :
      has_text (expected_signature c secret timestamp payload) (parse_signature_header header).v1
      ≡ true

module _ (c : Crypto) (now_us : ℕ) (payload : List ℕ) (header secret : Text) (tolerance : ℕ) where
  timestamp-IsSigned :
      (t : Text)
      → (parse_signature_header header).t ≡ some t
      → verify_timestamp c now_us payload secret tolerance t (parse_signature_header header).v1
        ≡ ok true
      → IsSigned c now_us payload header secret tolerance
  unfolding verify_timestamp
  timestamp-IsSigned t e h = elim (Option-cases (c.parse_int t)) [
    | inl n ↦ absurd (ground (arith, n))
    | inr (n, p) ↦ record {
      timestamp = t;
      seconds = n;
      in_header = e;
      a_number = p;
      fresh = ground arith;
      signed = any_match-has_text _ (parse_signature_header header).v1 (ground arith);
    }
  ]

  -- The signature check succeeds only with a secret, a header whose timestamp is a number within
  -- the tolerance, and among its signatures the HMAC of that timestamp and the payload.
  pub verify-IsSigned :
      verify_stripe_signature c now_us payload header secret tolerance ≡ ok true
      → (is_blank secret ≡ false) × IsSigned c now_us payload header secret tolerance
  unfolding verify_stripe_signature
  verify-IsSigned h = elim (Option-cases (parse_signature_header header).t) [
    | inl e ↦ absurd (ground (arith, e))
    | inr (t, e) ↦ (ground arith, timestamp-IsSigned t e (ground arith))
  ]

-- The header that a sender with the secret writes is accepted: for any payload and any timestamp
-- that is a number within the tolerance, if the timestamp and the HMAC have no comma or space and
-- are ASCII.
pub verify-render_header :
    (c : Crypto) (now_us : ℕ) (payload : List ℕ) (secret timestamp : Text) (tolerance : ℕ) (n : ℤ)
    → is_blank secret ≡ false
    → is_blank timestamp ≡ false
    → c.parse_int timestamp ≡ some n
    → is_stale now_us n tolerance ≡ false
    → IsPlain timestamp
    → IsPlain (expected_signature c secret timestamp payload)
    → is_ascii (expected_signature c secret timestamp payload) ≡ true
    → verify_stripe_signature c now_us payload
        (render_header timestamp (expected_signature c secret timestamp payload ∷ []))
        secret
        tolerance
      ≡ ok true
unfolding verify_stripe_signature verify_timestamp any_match
verify-render_header c now_us payload secret timestamp tolerance n sb tb pn fresh plain plain'
      ascii =
    ground (
      arith,
      parse-render_header timestamp (expected_signature c secret timestamp payload ∷ []) plain
          (plain', tt),
      text_eq_refl (expected_signature c secret timestamp payload),
    )
