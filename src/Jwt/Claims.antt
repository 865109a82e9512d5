-- ===== src/Jwt/Claims.antt =====
-- What `extract_user_id` reads from a token.
use svitock.Base.{
  ℕ, ◌+◌, ◌-◌, ◌%◌, ◌^◌, ◌≡◌, [], ◌∷◌, ◌++◌, Bytes, codes, same, find-Avoids, Avoids, length, ok,
  arith, append_assoc, substr-between, rfind-between,
}
use svitock.Base.Dict.{Dict, lookup}
use svitock.Extern.Json.{JsonLib, IsJson, fields, parse_quietly, parse_quietly_of_ok}
use svitock.Extern.Digest.{Sha1}
use svitock.Jwt.{sign, token_header, token_payload, issue_token, read_subject, extract_user_id}
use svitock.Jwt.Signature.{sign-Avoids}

-- The text between the first dot and the last one.
extract_user_id-parts :
    (json : JsonLib) (header payload signature : Bytes)
    → Avoids b'.' header
    → Avoids b'.' signature
    → extract_user_id json (header ++ b'.' ∷ (payload ++ b'.' ∷ signature))
      ≡ read_subject json (parse_quietly json payload)
unfolding extract_user_id
extract_user_id-parts json header payload signature h k =
    rw
      (
        find-Avoids b'.' header (payload ++ b'.' ∷ signature) h,
        rfind-between b'.' header payload signature k,
        extract_user_id,
      )
      (ground (
        arith,
        sub_length (length header) (length payload),
        substr-between b'.' header payload (b'.' ∷ signature),
      ))
  where
    sub_length : (m n : ℕ) → m + 1 + n - m - 1 ≡ n
    sub_length m n = omega arith

read_subject-payload :
    (json : JsonLib) (user_id : Bytes) (ttl_seconds now : ℕ)
    → IsJson json
    → read_subject json (token_payload json user_id ttl_seconds now) ≡ ok user_id
unfolding read_subject token_payload lookup same
read_subject-payload json user_id ttl_seconds now laws =
    let first : Bytes × json.Json = (codes "sub", json.text user_id) in
    let rest : Dict json.Json =
      (codes "iat", json.number now)
      ∷ (codes "exp", json.number ((now + ttl_seconds) % 2 ^ 64))
      ∷ [] in
    rw (
      laws.is_object-fields first rest,
      laws.value_text-object (fields json (first ∷ rest)) (codes "sub") []
          (laws.is_object-fields first rest),
      laws.member-fields first rest (codes "sub"),
      laws.read_text-text user_id,
    )

-- A token that the service issued names the user that it was issued for. The hypotheses: the JSON
-- library keeps its documented behaviour, it writes the fixed header with no dot in it, and it reads
-- back what it wrote for the payload (which holds where the user id is UTF-8).
pub extract_user_id-issue_token :
    (json : JsonLib) (sha1 : Sha1) (secret user_id : Bytes) (ttl_seconds now : ℕ)
    → IsJson json
    → Avoids b'.' (json.dump_replace (token_header json))
    → json.parse (json.dump_replace (token_payload json user_id ttl_seconds now))
      ≡ ok (token_payload json user_id ttl_seconds now)
    → extract_user_id json (issue_token json sha1 secret user_id ttl_seconds now) ≡ ok user_id
unfolding issue_token
extract_user_id-issue_token json sha1 secret user_id ttl_seconds now laws dotless round_trip =
    let header = json.dump_replace (token_header json) in
    let payload = json.dump_replace (token_payload json user_id ttl_seconds now) in
    let signature = sign sha1 secret (header ++ b'.' ∷ payload) in
    rw
      (
        append_assoc header (b'.' ∷ payload) (b'.' ∷ signature),
        extract_user_id-parts json header payload signature dotless
            (sign-Avoids sha1 secret (header ++ b'.' ∷ payload)),
        parse_quietly_of_ok json payload _ round_trip,
      )
      (read_subject-payload json user_id ttl_seconds now laws)
