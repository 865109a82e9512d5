-- ===== src/Tests/Tokens.antt =====
-- Tokens at concrete inputs.
use svitock.Base.{◌≡◌, refl, ◌↔◌, Bool, true, ◌∷◌, ◌++◌, Bytes, codes, ok, arith, Avoids, find}
use svitock.Base.Digits.{to_string, to_hex}
use svitock.Jwt.{
  sign, token_header, token_payload, issue_token, extract_user_id, validate_token, signature_text,
}
use svitock.Jwt.Tokens.{validate_token_iff}
use svitock.Jwt.Claims.{extract_user_id-issue_token}
use svitock.Tests.Json.{small_json, small_json-IsJson, read_json, write}
use svitock.Tests.Platform.{small_sha1}

abbrev secret : Bytes
secret = codes "svitock-secret"

-- `48879` is `0xbeef`: the words of a signature are not padded.
unpadded :
    signature_text (record { d0 = 48879; d1 = 0; d2 = 1; d3 = 16; d4 = 255 }) ≡ codes "beef0110ff"
unfolding signature_text to_hex
unpadded = refl

largest_id : to_string 18446744073709551615 ≡ codes "18446744073709551615"
unfolding to_string
largest_id = refl

validate_token_iff_example :
    ((b : Bool) × (validate_token small_sha1 secret (codes "a.b") ≡ ok b))
    × ((validate_token small_sha1 secret (codes "a.b") ≡ ok true)
        ↔ ((text : Bytes) × (codes "a.b" ≡ text ++ b'.' ∷ sign small_sha1 secret text)))
validate_token_iff_example = validate_token_iff small_sha1 secret (codes "a.b")

header_dotless : Avoids b'.' (write (token_header small_json))
unfolding token_header write
header_dotless = omega arith

payload_reads :
    read_json (write (token_payload small_json (codes "a.n") 3600 7))
    ≡ ok (token_payload small_json (codes "a.n") 3600 7)
unfolding token_payload read_json write find to_string
payload_reads = refl

extract_user_id-issue_token_example :
    extract_user_id small_json (issue_token small_json small_sha1 secret (codes "a.n") 3600 7)
    ≡ ok (codes "a.n")
extract_user_id-issue_token_example =
    extract_user_id-issue_token small_json small_sha1 secret (codes "a.n") 3600 7 small_json-IsJson
      header_dotless payload_reads
