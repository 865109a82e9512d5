-- ===== src/Jwt/Tokens.antt =====
-- Which tokens `validate_token` accepts.
use svitock.Base.{
  ℕ, ◌+◌, ◌≡◌, ◌↔◌, inl, inr, Bool, true, false, none, some, ◌∷◌, ◌++◌, Bytes, same, same_refl,
  same_iff, rfind, rfind-append, rfind_split, substr, substr_from, substr-prefix,
  substr_from-append, take, drop, ok, Option-cases, arith,
}
use svitock.Extern.Json.{JsonLib}
use svitock.Extern.Digest.{Sha1}
use svitock.Jwt.{sign, issue_token, validate_token}
use svitock.Jwt.Signature.{sign-Avoids}

validate-signed :
    (sha1 : Sha1) (secret text : Bytes)
    → validate_token sha1 secret (text ++ b'.' ∷ sign sha1 secret text) ≡ ok true
unfolding validate_token
validate-signed sha1 secret text =
    let signature = sign sha1 secret text in
    rw (
      rfind-append b'.' text signature (sign-Avoids sha1 secret text),
      validate_token,
      substr-prefix text (b'.' ∷ signature),
      substr_from-append b'.' text signature,
      same_refl signature,
    )

-- A token that the service issued is valid for the same secret, whatever the user, the lifetime and
-- the time of issue, and whatever the digest and the JSON library are.
pub validate_token-issue_token :
    (json : JsonLib) (sha1 : Sha1) (secret user_id : Bytes) (ttl_seconds now : ℕ)
    → validate_token sha1 secret (issue_token json sha1 secret user_id ttl_seconds now) ≡ ok true
unfolding issue_token
validate_token-issue_token json sha1 secret user_id ttl_seconds now = validate-signed sha1 secret _

validate-cases :
    (sha1 : Sha1) (secret token : Bytes) (i : ℕ)
    → rfind b'.' token ≡ some i
    → validate_token sha1 secret token
      ≡ ok (same (sign sha1 secret (take i token)) (drop (i + 1) token))
unfolding validate_token substr substr_from
validate-cases sha1 secret token i h =
    rw (h, validate_token) (ground (arith, rfind_split b'.' token i h))

validate-none :
    (sha1 : Sha1) (secret token : Bytes)
    → rfind b'.' token ≡ none
    → validate_token sha1 secret token ≡ ok false
unfolding validate_token
validate-none sha1 secret token h = rw (h, validate_token)

-- The service accepts exactly the texts that end in a dot and the signature of all that stands
-- before this dot, and it decides every text without throwing.
pub validate_token_iff :
    (sha1 : Sha1) (secret token : Bytes)
    → ((b : Bool) × (validate_token sha1 secret token ≡ ok b))
      × ((validate_token sha1 secret token ≡ ok true)
          ↔ ((text : Bytes) × (token ≡ text ++ b'.' ∷ sign sha1 secret text)))
validate_token_iff sha1 secret token =
    (total, (accepts, λ (text, e). rw e (validate-signed sha1 secret text)))
  where
    signed : ℕ → Bool
    signed i = same (sign sha1 secret (take i token)) (drop (i + 1) token)

    total : (b : Bool) × (validate_token sha1 secret token ≡ ok b)
    total = elim (Option-cases (rfind b'.' token)) [
      | inl e ↦ (false, validate-none sha1 secret token e)
      | inr (i, e) ↦ (signed i, validate-cases sha1 secret token i e)
    ]

    accepts :
        validate_token sha1 secret token ≡ ok true
        → (text : Bytes) × (token ≡ text ++ b'.' ∷ sign sha1 secret text)
    accepts h = elim (Option-cases (rfind b'.' token)) [
      | inl e ↦ cc (validate-none sha1 secret token e)
      | inr (i, e) ↦
          let good : signed i ≡ true = cc (validate-cases sha1 secret token i e) in
          (
            take i token,
            rw ((same_iff (sign sha1 secret (take i token)) (drop (i + 1) token)).0 good)
                (rfind_split b'.' token i e).0,
          )
    ]
