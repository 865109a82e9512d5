-- ===== src/Tests/Refresh.antt =====
-- Renewed tokens at concrete inputs.
use svitock.Base.{
  ◌≡◌, refl, false, [], ◌∷◌, ◌++◌, Bytes, codes, ok, Avoids, find, rfind, substr, substr_from, same,
  arith,
}
use svitock.Base.Digits.{to_string, to_hex}
use svitock.Extern.Json.{fields}
use svitock.Jwt.{sign, signature_text, token_header, token_payload, issue_token, validate_token}
use svitock.Jwt.Tokens.{validate_token_iff}
use svitock.Http.{TokenService, reply, refresh}
use svitock.Http.{okay, unauthorized}
use svitock.Http.Refresh.{refresh-issue_token, refresh-unsigned}
use svitock.Tests.Json.{small_json, small_json-IsJson, read_json, write}
use svitock.Tests.Platform.{small_sha1, small_uuid, memory_repository}

abbrev service : TokenService
service = record { sha1 = small_sha1; secret = codes "s"; now = 9 }

bearer : Avoids b' ' (codes "Bearer")
bearer = omega arith

header_dotless : Avoids b'.' (write (token_header small_json))
unfolding token_header write
header_dotless = omega arith

payload_reads :
    read_json (write (token_payload small_json (codes "ann") 60 7))
    ≡ ok (token_payload small_json (codes "ann") 60 7)
unfolding token_payload read_json write find to_string
payload_reads = refl

refresh-issue_token_example :
    refresh small_json small_uuid memory_repository service
      (codes "Bearer" ++ b' ' ∷ issue_token small_json small_sha1 (codes "s") (codes "ann") 60 7)
    ≡ reply small_json small_uuid memory_repository okay (
        fields small_json (
          (
            codes "access_token",
            small_json.text (issue_token small_json small_sha1 (codes "s") (codes "ann") 3600 9),
          )
          ∷ []))
refresh-issue_token_example =
    refresh-issue_token small_json small_uuid memory_repository service (codes "Bearer")
      (codes "ann") 60 7 bearer small_json-IsJson header_dotless payload_reads

refused : validate_token small_sha1 (codes "s") (codes "a.b") ≡ ok false
unfolding validate_token sign same rfind substr substr_from signature_text to_hex
refused = refl

unsigned : ¬ ((text : Bytes) × (codes "a.b" ≡ text ++ b'.' ∷ sign small_sha1 (codes "s") text))
unsigned signed =
    let accepted = (validate_token_iff small_sha1 (codes "s") (codes "a.b")).1.1 signed in
    cc refused

refresh-unsigned_example :
    refresh small_json small_uuid memory_repository service (codes "Bearer" ++ b' ' ∷ codes "a.b")
    ≡ reply small_json small_uuid memory_repository unauthorized
        (fields small_json ((codes "error", small_json.text (codes "invalid token")) ∷ []))
refresh-unsigned_example =
    refresh-unsigned small_json small_uuid memory_repository service (codes "Bearer") (codes "a.b")
      bearer unsigned
