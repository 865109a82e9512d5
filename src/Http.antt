-- ===== src/Http.antt =====
-- infrastructure/network/http/http_router: the response to a request.
pub mod Refresh
pub mod Connection
pub mod Accepting
pub mod History
use svitock.Base.{
  ℕ, suc, ◌+◌, ◌-◌, ◌%◌, ◌^◌, Bool, true, false, ◌&&◌, Option, none, some, List, [], ◌∷◌, map,
  length, Bytes, codes, same, find, substr, substr_from, starts_with, ends_with, Outcome, ok,
  throws, ◌>>=◌, if◌then◌else◌,
}
use svitock.Extern.Json.{JsonLib, fields, parse_quietly}
use svitock.Extern.Digest.{Sha1}
use svitock.Extern.Uuid.{UuidLib}
use svitock.Application.Ports.{MessageRepository}
use svitock.Domain.{Message}
use svitock.Jwt.{issue_token, extract_user_id, validate_token}

-- `other` is every method but the two that the router knows.
pub data Method : Type 0 where
  get post other : Method

-- `authorization` is the header field, empty where the request has none.
pub record Request : Type 0 where
  pub method : Method
  pub target : Bytes
  pub body : Bytes
  pub authorization : Bytes

pub data Status : Type 0 where
  okay accepted unauthorized not_found : Status

pub record Response : Type 0 where
  pub status : Status
  pub body : Bytes

abbrev is_post : Method → Bool
is_post post = true
is_post _ = false

abbrev is_get : Method → Bool
is_get get = true
is_get _ = false

-- The service that the router is built with: the digest, the secret, and the time of a request.
pub record TokenService : Type 0 where
  pub sha1 : Sha1
  pub secret : Bytes
  pub now : ℕ

module _ (json : JsonLib) (uuid : UuidLib) (messages : MessageRepository uuid.Uuid) where
  open json use {Json, text, dump, array, value_text}
  open uuid use {string_generator, to_string}

  abbrev pub reply : Status → Json → Outcome Response
  reply status j = do body ← dump j; ok (record { status = status; body = body })

  unfoldable pub login : TokenService → Bytes → Outcome Response
  login service body = do
    user_id ← value_text (parse_quietly json body) (codes "user_id") []
    reply Status.okay (
        fields json (
          (
            codes "access_token",
            text (issue_token json service.sha1 service.secret user_id 3600 service.now),
          )
          ∷ []))

  -- `auth.find(' ') + 1`, which is 0 where there is no space.
  unfoldable pub after_space : Bytes → ℕ
  after_space auth = elim (find b' ' auth) [ none ↦ 0 | some i ↦ i + 1 ]

  -- The answer to a token that is valid, or is not.
  unfoldable pub renew : TokenService → Bytes → Bool → Outcome Response
  renew service token true = do
    user_id ← extract_user_id json token
    reply Status.okay (
        fields json (
          (
            codes "access_token",
            text (issue_token json service.sha1 service.secret user_id 3600 service.now),
          )
          ∷ []))
  renew service token false =
      reply Status.unauthorized (fields json ((codes "error", text (codes "invalid token")) ∷ []))

  unfoldable pub refresh : TokenService → Bytes → Outcome Response
  unfolding renew
  refresh service auth = do
    token ← substr_from auth (after_space auth)
    valid ← validate_token service.sha1 service.secret token
    renew service token valid

  abbrev pub message_entry : Message uuid.Uuid → Json
  message_entry m =
      fields json ((codes "id", text (to_string m.id)) ∷ (codes "text", text m.content) ∷ [])

  -- The length of the identifier is an unsigned 64-bit number.
  unfoldable pub history : messages.State → Bytes → Outcome (messages.State × Response)
  history state target = do
    chat_text ← substr target 6 ((length target + 2 ^ 64 - 6 - 9) % 2 ^ 64)
    chat_id ← string_generator chat_text
    found ← messages.get_by_chat state chat_id 50
    response ← reply Status.okay (array (map message_entry found.1))
    ok (found.0, response)

  abbrev keep : messages.State → Outcome Response → Outcome (messages.State × Response)
  keep state outcome = do response ← outcome; ok (state, response)

  abbrev status_reply : Status → Bytes → Outcome Response
  status_reply status word = reply status (fields json ((codes "status", text word) ∷ []))

  unfoldable pub user_reply : Bytes → Outcome Response
  user_reply target = do
    id ← substr_from target 6
    reply Status.okay (fields json ((codes "id", text id) ∷ []))

  unfoldable pub route :
      TokenService → messages.State → Request → Outcome (messages.State × Response)
  route service state request =
      if is_post request.method && same request.target (codes "/register")
      then keep state (status_reply Status.okay (codes "ok"))
      else (if is_post request.method && same request.target (codes "/login")
          then keep state (login service request.body)
          else (if is_post request.method && same request.target (codes "/refresh")
              then keep state (refresh service request.authorization)
              else (if is_get request.method && starts_with request.target (codes "/user/")
                  then keep state (user_reply request.target)
                  else (if is_get request.method
                        && (starts_with request.target (codes "/chat/")
                            && ends_with request.target (codes "/messages"))
                      then history state request.target
                      else (if is_post request.method
                            && (starts_with request.target (codes "/chat/")
                                && ends_with request.target (codes "/message"))
                          then keep state (status_reply Status.accepted (codes "queued"))
                          else keep state (
                              reply Status.not_found
                                (fields json ((codes "error", text (codes "not found")) ∷ []))))))))
