-- ===== src/Jwt/Signature.antt =====
-- The text of a signature.
use svitock.Base.{◌++◌, Bytes, Avoids, All-append, ◌≢◌}
use svitock.Base.Digits.{to_hex, to_hex-Avoids}
use svitock.Extern.Digest.{Sha1}
use svitock.Jwt.{signature_text, sign}

-- A signature holds no dot.
pub sign-Avoids : (sha1 : Sha1) (secret text : Bytes) → Avoids b'.' (sign sha1 secret text)
unfolding sign signature_text
sign-Avoids sha1 secret text =
    let d = sha1 (text ++ secret) in
    let end = join (to_hex d.d3) (to_hex d.d4) (to_hex-Avoids d.d3) (to_hex-Avoids d.d4) in
    let more = join (to_hex d.d2) _ (to_hex-Avoids d.d2) end in
    let most = join (to_hex d.d1) _ (to_hex-Avoids d.d1) more in
    join (to_hex d.d0) _ (to_hex-Avoids d.d0) most
  where
    join : (s t : Bytes) → Avoids b'.' s → Avoids b'.' t → Avoids b'.' (s ++ t)
    join = All-append (λ b. b ≢ b'.')
