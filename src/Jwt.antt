-- ===== src/Jwt.antt =====
-- core/security/jwt_service: tokens `header.payload.signature`, each part as plain text.
pub mod Signature
pub mod Tokens
pub mod Claims
use svitock.Base.{
  ℕ, ◌+◌, ◌-◌, ◌%◌, ◌^◌, Bool, true, false, Option, none, some, List, [], ◌∷◌, ◌++◌, Bytes, codes,
  same, find, rfind, substr, substr_from, Outcome, ok, throws, ◌>>=◌, ◌==◌, if◌then◌else◌,
}
use svitock.Base.Digits.{to_hex}
use svitock.Extern.Json.{JsonLib, fields, parse_quietly}
use svitock.Extern.Digest.{Digest, Sha1}

-- The loop over the five words.
unfoldable pub signature_text : Digest → Bytes
signature_text d = to_hex d.d0 ++ (to_hex d.d1 ++ (to_hex d.d2 ++ (to_hex d.d3 ++ to_hex d.d4)))

-- `sign`: the digest of the data followed by the secret.
unfoldable pub sign : Sha1 → Bytes → Bytes → Bytes
sign sha1 secret data' = signature_text (sha1 (data' ++ secret))

module _ (json : JsonLib) where
  open json use {Json, text, number, dump_replace, is_object, value_text}

  unfoldable pub token_header : Json
  token_header =
      fields json ((codes "alg", text (codes "HS1")) ∷ (codes "typ", text (codes "JWT")) ∷ [])

  -- The sum is an unsigned 64-bit number.
  unfoldable pub token_payload : Bytes → ℕ → ℕ → Json
  token_payload user_id ttl_seconds now = fields json (
      (codes "sub", text user_id)
      ∷ (codes "iat", number now)
      ∷ (codes "exp", number ((now + ttl_seconds) % 2 ^ 64))
      ∷ [])

  unfoldable pub issue_token : Sha1 → Bytes → Bytes → ℕ → ℕ → Bytes
  issue_token sha1 secret user_id ttl_seconds now =
      let raw =
        dump_replace token_header
        ++ (codes "." ++ dump_replace (token_payload user_id ttl_seconds now)) in
      raw ++ (codes "." ++ sign sha1 secret raw)

  unfoldable pub read_subject : Json → Outcome Bytes
  read_subject payload = if is_object payload then value_text payload (codes "sub") [] else ok []

  -- From the positions of the first and the last dot on.
  unfoldable pub extract_between : Bytes → Option ℕ → Option ℕ → Outcome Bytes
  unfolding read_subject
  extract_between token none last_dot = ok []
  extract_between token (some first_dot) none = ok []
  extract_between token (some first_dot) (some last_dot) =
      if first_dot == last_dot then ok [] else (do
        payload_raw ← substr token (first_dot + 1) (last_dot - first_dot - 1)
        read_subject (parse_quietly json payload_raw))

  unfoldable pub extract_user_id : Bytes → Outcome Bytes
  unfolding extract_between
  extract_user_id token = extract_between token (find b'.' token) (rfind b'.' token)

unfoldable pub validate_token : Sha1 → Bytes → Bytes → Outcome Bool
validate_token sha1 secret token = elim (rfind b'.' token) [
  | none ↦ ok false
  | some last_dot ↦ do
    data' ← substr token 0 last_dot
    signature ← substr_from token (last_dot + 1)
    ok (same (sign sha1 secret data') signature)
]
