-- ===== src/Dispatcher/Requests.antt =====
-- What each text of a client becomes, whichever of the four requests it is, or none.
use svitock.Base.{
  ◌≡◌, refl, List, [], ◌∷◌, Bytes, codes, same, same_iff, true, false, ok, throws, Exception, arith,
  ◌⊎◌, subst, ◌∙◌,
}
use svitock.Base.Dict.{Dict, lookup}
use svitock.Extern.Json.{JsonLib, IsJson, fields, parse_quietly, parse_quietly_of_ok}
use svitock.Extern.Queue.{QueueLib}
use svitock.Actor.Payload.{
  ActorType, ActorEnvelope, AuthEvent, SendMessageEvent, TypingEvent, ReadEvent, auth, send_message,
  typing, read,
}
use svitock.Actor.System.{ActorSystem, send}
use svitock.Dispatcher.{
  post, dispatch, dispatch_json, dispatch_type, dispatch_auth, dispatch_typing, dispatch_read,
}
use svitock.Dispatcher.Laws.{client_message, value_text-fields, dispatch-client_message}

module _ (json : JsonLib) where
  abbrev auth_rest : AuthEvent → Dict json.Json
  auth_rest e = (codes "user_id", json.text e.user_id) ∷ []

  abbrev typing_rest : TypingEvent → Dict json.Json
  typing_rest e =
      (codes "chat_id", json.text e.chat_id) ∷ (codes "user_id", json.text e.user_id) ∷ []

  abbrev read_rest : ReadEvent → Dict json.Json
  read_rest e =
      (codes "chat_id", json.text e.chat_id)
      ∷ (codes "user_id", json.text e.user_id)
      ∷ (codes "message_id", json.text e.message_id)
      ∷ []

  abbrev typed : Bytes → Bytes × json.Json
  typed type = (codes "type", json.text type)

  -- The types that the dispatcher knows.
  abbrev pub IsKnown : Bytes → Type 0
  IsKnown type =
      (type ≡ codes "auth")
      ⊎ ((type ≡ codes "send_message") ⊎ ((type ≡ codes "typing") ⊎ (type ≡ codes "message_read")))

  -- What the library makes of a text that comes in a session, and the envelopes that it asks for:
  -- the object of a request, which asks for one; no JSON, a value that is no object, or an object
  -- whose type is another text, which ask for none.
  pub data Asks (session_id raw_message : Bytes) : List (ActorEnvelope json.Json) → Type 0 where
    logs_in :
        (e : AuthEvent)
        → e.session_id ≡ session_id
        → json.parse raw_message ≡ ok (fields json (typed (codes "auth") ∷ auth_rest e))
        → Asks session_id raw_message
            (record { destination = ActorType.session; payload = auth e } ∷ [])
    sends :
        (e : SendMessageEvent)
        → e.session_id ≡ session_id
        → json.parse raw_message ≡ ok (client_message json e)
        → Asks session_id raw_message
            (record { destination = ActorType.message; payload = send_message e } ∷ [])
    types :
        (e : TypingEvent)
        → json.parse raw_message ≡ ok (fields json (typed (codes "typing") ∷ typing_rest e))
        → Asks session_id raw_message
            (record { destination = ActorType.message; payload = typing e } ∷ [])
    reads :
        (e : ReadEvent)
        → json.parse raw_message ≡ ok (fields json (typed (codes "message_read") ∷ read_rest e))
        → Asks session_id raw_message
            (record { destination = ActorType.message; payload = read e } ∷ [])
    no_json : (x : Exception) → json.parse raw_message ≡ throws x → Asks session_id raw_message []
    no_object :
        (j : json.Json)
        → json.parse raw_message ≡ ok j
        → json.is_object j ≡ false
        → Asks session_id raw_message []
    unknown :
        (j : json.Json) (type : Bytes)
        → json.parse raw_message ≡ ok j
        → json.is_object j ≡ true
        → json.value_text j (codes "type") [] ≡ ok type
        → (IsKnown type → ⊥)
        → Asks session_id raw_message []

  abbrev pub send_each :
      (q : QueueLib (ActorEnvelope json.Json))
      → ActorSystem q
      → List (ActorEnvelope json.Json)
      → ActorSystem q
  send_each q s [] = s
  send_each q s (e ∷ es) = send_each q (send q s e).0 es

module _ (json : JsonLib) (laws : IsJson json) (q : QueueLib (ActorEnvelope json.Json))
    (s : ActorSystem q) (session_id raw_message : Bytes) where
  auth_lem :
      (e : AuthEvent)
      → e.session_id ≡ session_id
      → dispatch_auth json q s session_id
          (fields json (typed json (codes "auth") ∷ auth_rest json e))
        ≡ ok (post json q s ActorType.session (auth e))
  unfolding dispatch_auth lookup same
  auth_lem e h =
      rw
        (
          value_text-fields json laws (typed json (codes "auth")) (auth_rest json e)
              (codes "user_id") [],
          laws.read_text-text e.user_id,
          ← h,
        )
        refl

  typing_lem :
      (e : TypingEvent)
      → dispatch_typing json q s (fields json (typed json (codes "typing") ∷ typing_rest json e))
        ≡ ok (post json q s ActorType.message (typing e))
  unfolding dispatch_typing lookup same
  typing_lem e =
      let field = value_text-fields json laws (typed json (codes "typing")) (typing_rest json e) in
      rw
        (
          field (codes "chat_id") [],
          laws.read_text-text e.chat_id,
          field (codes "user_id") [],
          laws.read_text-text e.user_id,
        )
        refl

  read_lem :
      (e : ReadEvent)
      → dispatch_read json q s (fields json (typed json (codes "message_read") ∷ read_rest json e))
        ≡ ok (post json q s ActorType.message (read e))
  unfolding dispatch_read lookup same
  read_lem e =
      let field =
        value_text-fields json laws (typed json (codes "message_read")) (read_rest json e) in
      rw
        (
          field (codes "chat_id") [],
          laws.read_text-text e.chat_id,
          field (codes "user_id") [],
          laws.read_text-text e.user_id,
          field (codes "message_id") [],
          laws.read_text-text e.message_id,
        )
        refl

  -- An object is dispatched by its type.
  typed_lem :
      (type : Bytes) (rest : Dict json.Json)
      → json.parse raw_message ≡ ok (fields json (typed json type ∷ rest))
      → dispatch json q s session_id raw_message
        ≡ dispatch_type json q s session_id (fields json (typed json type ∷ rest)) type
  unfolding dispatch dispatch_json lookup same
  typed_lem type rest h =
      rw
        (
          parse_quietly_of_ok json raw_message _ h,
          laws.is_object-fields (typed json type) rest,
          value_text-fields json laws (typed json type) rest (codes "type") [],
          laws.read_text-text type,
        )
        refl

  unknown_lem :
      (j : json.Json) (type : Bytes)
      → (IsKnown json type → ⊥)
      → dispatch_type json q s session_id j type ≡ ok s
  unfolding dispatch_type
  unknown_lem j type h = ground (
    arith,
    same_iff type (codes "auth"),
    same_iff type (codes "send_message"),
    same_iff type (codes "typing"),
    same_iff type (codes "message_read"),
  )

  no_json_lem :
      (x : Exception)
      → json.parse raw_message ≡ throws x
      → parse_quietly json raw_message ≡ json.discarded
  unfolding parse_quietly
  no_json_lem x h = rw (parse_quietly, h) refl

  -- Whatever text comes in a session: where the JSON library reads it as the object of a login, of
  -- a message, of a typing notice or of a reading notice, the actor of this request is sent exactly
  -- its fields, with the session where it has one; where the text is no JSON or no object, or its
  -- type is another text, nothing is sent. In each of these cases the dispatcher returns.
  pub dispatch-Asks :
      (es : List (ActorEnvelope json.Json))
      → Asks json session_id raw_message es
      → dispatch json q s session_id raw_message ≡ ok (send_each json q s es)
  unfolding dispatch dispatch_json dispatch_type same
  dispatch-Asks es (logs_in e id h) = typed_lem (codes "auth") (auth_rest json e) h ∙ auth_lem e id
  dispatch-Asks es (sends e id h) =
      subst
        (λ k.
          dispatch json q s k raw_message ≡ ok (post json q s ActorType.message (send_message e)))
        id (dispatch-client_message json laws q s e raw_message h)
  dispatch-Asks es (types e h) = typed_lem (codes "typing") (typing_rest json e) h ∙ typing_lem e
  dispatch-Asks es (reads e h) = typed_lem (codes "message_read") (read_rest json e) h ∙ read_lem e
  dispatch-Asks es (no_json x h) = rw (no_json_lem x h, laws.is_object-discarded) refl
  dispatch-Asks es (no_object j h k) = rw (parse_quietly_of_ok json raw_message j h, k) refl
  dispatch-Asks es (unknown j type h k l m) =
      rw (parse_quietly_of_ok json raw_message j h, k, l) (unknown_lem j type m)
