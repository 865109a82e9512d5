-- ===== src/Http/Refresh.antt =====
-- Which tokens `/refresh` renews.
use svitock.Base.{
  ℕ, ◌≡◌, refl, inl, inr, [], ◌∷◌, ◌++◌, Bytes, codes, Avoids, find-Avoids, substr_from,
  substr_from-append, ok, Bool-cases,
}
use svitock.Extern.Json.{JsonLib, IsJson, fields}
use svitock.Extern.Uuid.{UuidLib}
use svitock.Application.Ports.{MessageRepository}
use svitock.Jwt.{sign, token_header, token_payload, issue_token}
use svitock.Jwt.Tokens.{validate_token-issue_token, validate_token_iff}
use svitock.Jwt.Claims.{extract_user_id-issue_token}
use svitock.Http.{TokenService, Status, reply, refresh, renew, after_space}

module _ (json : JsonLib) (uuid : UuidLib) (messages : MessageRepository uuid.Uuid) where
  after_space-scheme :
      (scheme token : Bytes)
      → Avoids b' ' scheme
      → substr_from
          (scheme ++ b' ' ∷ token)
          (after_space json uuid messages (scheme ++ b' ' ∷ token))
        ≡ ok token
  unfolding after_space
  after_space-scheme scheme token h =
      rw (after_space, find-Avoids b' ' scheme token h) (substr_from-append b' ' scheme token)

  -- Where the `Authorization` field holds a scheme and, after its first space, a token that the
  -- service issued, the answer is a new token for the same user, issued now for an hour. The
  -- hypotheses are those under which the service reads the user from its own token.
  pub refresh-issue_token :
      (service : TokenService) (scheme user_id : Bytes) (ttl_seconds then' : ℕ)
      → Avoids b' ' scheme
      → IsJson json
      → Avoids b'.' (json.dump_replace (token_header json))
      → json.parse (json.dump_replace (token_payload json user_id ttl_seconds then'))
        ≡ ok (token_payload json user_id ttl_seconds then')
      → refresh json uuid messages service
          (scheme ++ b' ' ∷ issue_token json service.sha1 service.secret user_id ttl_seconds then')
        ≡ reply json uuid messages Status.okay (
            fields json (
              (
                codes "access_token",
                json.text (issue_token json service.sha1 service.secret user_id 3600 service.now),
              )
              ∷ []))
  unfolding refresh renew
  refresh-issue_token service scheme user_id ttl_seconds then' h laws dotless round_trip =
      let token = issue_token json service.sha1 service.secret user_id ttl_seconds then' in
      rw
        (
          after_space-scheme scheme token h,
          validate_token-issue_token json service.sha1 service.secret user_id ttl_seconds then',
          extract_user_id-issue_token json service.sha1 service.secret user_id ttl_seconds then'
              laws dotless round_trip,
        )
        refl

  -- Where what stands after the first space is not some text, a dot and the signature of this text,
  -- the answer is `unauthorized`.
  pub refresh-unsigned :
      (service : TokenService) (scheme token : Bytes)
      → Avoids b' ' scheme
      → ¬ ((text : Bytes) × (token ≡ text ++ b'.' ∷ sign service.sha1 service.secret text))
      → refresh json uuid messages service (scheme ++ b' ' ∷ token)
        ≡ reply json uuid messages Status.unauthorized
            (fields json ((codes "error", json.text (codes "invalid token")) ∷ []))
  unfolding refresh renew
  refresh-unsigned service scheme token h unsigned =
      let ((b, decided), (accepts, signed)) =
        validate_token_iff service.sha1 service.secret token in
      elim (Bool-cases b) [
        | inl valid ↦ absurd (unsigned (accepts (rw valid at decided)))
        | inr invalid ↦ rw (after_space-scheme scheme token h, decided, invalid) refl
      ]
