-- ===== src/Legacy.antt =====
-- infrastructure/websocket, the dispatcher and the session manager that the build leaves out. Log
-- lines are left out.
pub mod Senders
pub mod Session
pub mod Listener
use svitock.Base.{
  ℕ, ◌==◌, Bool, true, false, ◌||◌, Option, none, some, List, [], ◌∷◌, ◌++◌, Bytes, codes, same,
  is_empty, Outcome, ok, throws, ◌>>=◌, if◌then◌else◌,
}
use svitock.Base.Dict.{Dict, lookup, insert, erase}
use svitock.Extern.Json.{JsonLib, fields}
use svitock.Extern.Uuid.{UuidLib}
use svitock.Application.Ports.{MessageRepository}
use svitock.Application

-- `sent` holds the texts given to `sendText`, oldest first.
pub record LegacySession : Type 0 where
  pub user_id : Bytes
  pub sent : List Bytes

-- `SessionManager` keeps weak pointers, which are addresses here.
abbrev pub SessionManager : Type 0
SessionManager = Dict ℕ

-- `objects` are the sessions that are alive, by address.
pub record LegacyState {Uuid : Type 0} (messages : MessageRepository Uuid) : Type 0 where
  pub manager : SessionManager
  pub objects : ℕ → Option LegacySession
  pub stored : messages.State

unfoldable pub register_session : SessionManager → Bytes → ℕ → SessionManager
register_session manager user_id address = insert user_id address manager

unfoldable pub remove_session : SessionManager → Bytes → SessionManager
remove_session manager user_id = erase user_id manager

-- The address of the session that `findSession` returns; `none` for a null pointer.
unfoldable pub find_session : (ℕ → Option LegacySession) → SessionManager → Bytes → Option ℕ
find_session objects manager user_id = elim (lookup user_id manager) [
  | none ↦ none
  | some address ↦ elim (objects address) [ none ↦ none | some session ↦ some address ]
]

abbrev change :
    (LegacySession → LegacySession) → (ℕ → Option LegacySession) → ℕ → ℕ → Option LegacySession
change f objects address a =
    if a == address
    then elim (objects a) [ none ↦ none | some session ↦ some (f session) ]
    else objects a

module _ (json : JsonLib) (uuid : UuidLib) (messages : MessageRepository uuid.Uuid) where
  open json use {Json, parse, value_text, value, text, list, object, dump}
  open uuid use {string_generator}

  abbrev pub State : Type 0
  State = LegacyState messages

  -- `session.getUserId()` of the session at an address.
  abbrev pub user_id_of : State → ℕ → Bytes
  user_id_of s address = elim (s.objects address) [ none ↦ [] | some session ↦ session.user_id ]

  abbrev pub send_text : State → ℕ → Bytes → State
  send_text s address t = record s {
    objects =
        change (λ session. record session { sent = session.sent ++ t ∷ [] }) s.objects address;
  }

  unfoldable pub authenticate : State → ℕ → Bytes → State
  unfolding register_session
  authenticate s self user_id =
      if is_empty user_id
      then send_text s self
          (codes "{\"type\":\"error\",\"payload\":{\"message\":\"user_id required\"}}")
      else send_text
          (record s {
            objects = change (λ session. record session { user_id = user_id }) s.objects self;
            manager = register_session s.manager user_id self;
          })
          self (codes "{\"type\":\"auth_ok\"}")

  unfoldable pub handle_auth : State → ℕ → Json → Outcome State
  unfolding authenticate
  handle_auth s self message = do
    user_id ← value_text message (codes "user_id") []
    ok (authenticate s self user_id)

  -- The inner braces hold a key and a text, which make an array.
  unfoldable pub delivered : Bytes → Bytes → Bytes → Json
  delivered chat_id from content = fields json (
      (codes "type", text (codes "message_delivered"))
      ∷ (codes "chat_id", text chat_id)
      ∷ (codes "from_user_id", text from)
      ∷ (codes "payload", list (text (codes "text") ∷ text content ∷ []))
      ∷ [])

  -- What follows `execute`.
  unfoldable pub answer : State → ℕ → Bytes → Bytes → Bytes → Bool → Outcome State
  answer s self chat_id to_user_id content false = ok (
      send_text s self
        (codes "{\"type\":\"error\",\"payload\":{\"message\":\"message not stored\"}}"))
  answer s self chat_id to_user_id content true =
      dump (delivered chat_id (user_id_of s self) content) >>= λ outgoing.
      if is_empty to_user_id
      then ok (send_text s self outgoing)
      else elim (find_session s.objects s.manager to_user_id) [
        | none ↦ ok (send_text s self outgoing)
        | some recipient ↦ ok (send_text (send_text s self outgoing) recipient outgoing)
      ]

  -- The identifier and the time are those that the use case draws.
  unfoldable pub store_sent : uuid.Uuid → ℕ → State → ℕ → Bytes → Bytes → Bytes → Outcome State
  store_sent id now s self chat_text to_user_id content = do
    chat_id ← string_generator chat_text
    sender_id ← string_generator (user_id_of s self)
    result ← Application.send_message messages s.stored id now chat_id sender_id content
    answer (record s { stored = result.0 }) self chat_text to_user_id content result.1

  -- The guards of `handleSendMessage`.
  unfoldable pub check_sent : uuid.Uuid → ℕ → State → ℕ → Bytes → Bytes → Bytes → Outcome State
  unfolding store_sent
  check_sent id now s self chat_text to_user_id content =
      if is_empty chat_text || is_empty content
      then ok (
          send_text s self (
            codes
              "{\"type\":\"error\",\"payload\":{\"message\":\"chat_id and payload.text required\"}}"))
      else (if is_empty (user_id_of s self)
          then ok (
              send_text s self
                (codes "{\"type\":\"error\",\"payload\":{\"message\":\"auth required\"}}"))
          else store_sent id now s self chat_text to_user_id content)

  unfoldable pub handle_send_message : uuid.Uuid → ℕ → State → ℕ → Json → Outcome State
  unfolding check_sent
  handle_send_message id now s self message = do
    chat_text ← value_text message (codes "chat_id") []
    to_user_id ← value_text message (codes "to_user_id") []
    payload ← value message (codes "payload") object
    content ← value_text payload (codes "text") []
    check_sent id now s self chat_text to_user_id content

  abbrev pub dispatch_type : uuid.Uuid → ℕ → State → ℕ → Json → Bytes → Outcome State
  dispatch_type id now s self message type =
      if same type (codes "auth")
      then handle_auth s self message
      else (if same type (codes "send_message")
          then handle_send_message id now s self message
          else (if same type (codes "typing")
              then (dump message >>= λ line. ok s)
              else (if same type (codes "message_read")
                  then (dump message >>= λ line. ok s)
                  else (if same type (codes "ping")
                      then ok (send_text s self (codes "{\"type\":\"pong\"}"))
                      else ok (
                          send_text s self (
                            codes
                              "{\"type\":\"error\",\"payload\":{\"message\":\"unsupported type\"}}"))))))

  -- `dispatchMessage` of the session at the address `self`.
  unfoldable pub dispatch_message : uuid.Uuid → ℕ → State → ℕ → Bytes → Outcome State
  dispatch_message id now s self raw_message = elim (parse raw_message) [
    | throws e ↦
        ok (
          send_text s self
            (codes "{\"type\":\"error\",\"payload\":{\"message\":\"invalid json\"}}"))
    | ok message ↦ value_text message (codes "type") [] >>= dispatch_type id now s self message
  ]
