-- ===== src/Runtime/Letters/Requests.antt =====
-- The messages that a client's text asks for, and what dispatching the text does to those that are
-- on their way.
use mathlib.Core.List.{Sublistᴰ}
use mathlib.Core.List.Sublistᴰ
use svitock.Base.{
  ◌≡◌, refl, sym, ◌∙◌, inl, inr, List, [], ◌∷◌, ◌++◌, map, append-nil, append_assoc, Bytes, codes,
  same, Outcome, ok, throws, ◌>>=◌, >>=_assoc, >>=_ext, Bool-cases, Ensures, Ensures->>=,
  Ensures-if, Outcome-cases, if◌then◌else◌,
}
use svitock.Extern.Json.{JsonLib, parse_quietly}
use svitock.Extern.Queue.{QueueLib, IsFifo}
use svitock.Actor.Payload.{
  ActorType, ActorPayload, ActorEnvelope, SendMessageEvent, StoragePersistMessage, session, chat,
  message, storage, auth, send_message, typing, read,
}
use svitock.Actor.System.{ActorSystem}
use svitock.Dispatcher.{
  post, dispatch, dispatch_json, dispatch_type, dispatch_auth, dispatch_send_message,
  dispatch_typing, dispatch_read,
}
use svitock.Runtime.Letters.{
  letter_of, letters_in, in_flight, waiting_at-send, waiting_at-send_silent,
}

module _ (json : JsonLib) where
  open json use {Json, is_object, value_text, value, object}

  -- The message that an object states.
  abbrev pub message_in : Bytes → Json → Outcome SendMessageEvent
  message_in session_id j = do
    payload ← value j (codes "payload") object
    chat_id ← value_text j (codes "chat_id") []
    sender_id ← value_text j (codes "sender_id") []
    recipient_id ← value_text j (codes "recipient_session_id") []
    text ← value_text payload (codes "text") []
    ok (record {
      session_id = session_id;
      chat_id = chat_id;
      sender_id = sender_id;
      recipient_id = recipient_id;
      text = text;
    })

  abbrev one : {A : Type 0} → Outcome A → List A
  one (ok a) = a ∷ []
  one (throws e) = []

  -- The messages that a text of a session asks to send: none or one.
  abbrev pub requested_in : Bytes → Json → Bytes → List SendMessageEvent
  requested_in session_id j type =
      if same type (codes "send_message") then one (message_in session_id j) else []

  abbrev of_type : Bytes → Json → Outcome Bytes → List SendMessageEvent
  of_type session_id j (ok type) = requested_in session_id j type
  of_type session_id j (throws e) = []

  unfoldable pub requested : Bytes → Bytes → List SendMessageEvent
  requested session_id raw_message =
      let j = parse_quietly json raw_message in
      if is_object j then of_type session_id j (value_text j (codes "type") []) else []

module _ (json : JsonLib) (q : QueueLib (ActorEnvelope json.Json)) (fifo : IsFifo q) where
  open json use {Json, is_object, value_text, value, object}

  -- Some of the letters of these messages are now the last ones on their way.
  abbrev pub Grows : ActorSystem q → List SendMessageEvent → ActorSystem q → Type 0
  Grows s es s' =
      (x : List StoragePersistMessage) × Sublistᴰ x (map letter_of es)
      × (in_flight q s' ≡ in_flight q s ++ x)

  -- A post of an envelope that brings no letter.
  post-same :
      (s : ActorSystem q) (t : ActorType) (payload : ActorPayload Json) (es : List SendMessageEvent)
      → letters_in payload ≡ []
      → Grows s es (post json q s t payload)
  post-same s t payload es silent = (
    [],
    Sublistᴰ.nil-sublist (map letter_of es),
    let e : ActorEnvelope Json = record { destination = t; payload = payload } in
        rw
          (
            waiting_at-send_silent q fifo s e storage silent,
            waiting_at-send_silent q fifo s e chat silent,
            waiting_at-send_silent q fifo s e message silent,
          )
          (sym (append-nil (in_flight q s))),
  )

  post-message :
      (s : ActorSystem q) (e : SendMessageEvent)
      → Grows s (e ∷ []) (post json q s message (send_message e))
  post-message s e =
      let (x, part, added) =
        waiting_at-send q fifo s (record { destination = message; payload = send_message e }) in
      (x, part, simp (added storage, added chat, added message, append-nil, append_assoc))

  -- The dispatch of a message posts what the object states.
  pub dispatch_send_message_lem :
      (s : ActorSystem q) (session_id : Bytes) (j : Json)
      → dispatch_send_message json q s session_id j
        ≡ (message_in json session_id j >>= λ e. ok (post json q s message (send_message e)))
  unfolding dispatch_send_message
  dispatch_send_message_lem s session_id j =
      let posted = λ (e : SendMessageEvent). ok (post json q s message (send_message e)) in
      sym (
        >>=_assoc (value j (codes "payload") object) _ posted
        ∙ >>=_ext (value j (codes "payload") object) _ _ λ payload.
          >>=_assoc (value_text j (codes "chat_id") []) _ posted
          ∙ >>=_ext (value_text j (codes "chat_id") []) _ _ λ chat_id.
            >>=_assoc (value_text j (codes "sender_id") []) _ posted
            ∙ >>=_ext (value_text j (codes "sender_id") []) _ _ λ sender_id.
              >>=_assoc (value_text j (codes "recipient_session_id") []) _ posted
              ∙ >>=_ext (value_text j (codes "recipient_session_id") []) _ _
                  λ recipient_id. >>=_assoc (value_text payload (codes "text") []) _ posted)

  module _ (s : ActorSystem q) (session_id : Bytes) (j : Json) where
    dispatch_send_message-Grows :
        Ensures
          (Grows s (one json (message_in json session_id j)))
          (dispatch_send_message json q s session_id j)
    dispatch_send_message-Grows =
        rw (dispatch_send_message_lem s session_id j)
          (elim (Outcome-cases (message_in json session_id j)) [
            | inl (e, stated) ↦ rw stated (post-message s e)
            | inr (x, failed) ↦ rw failed tt
          ])

    module _ (es : List SendMessageEvent) where
      dispatch_auth-Grows : Ensures (Grows s es) (dispatch_auth json q s session_id j)
      unfolding dispatch_auth
      dispatch_auth-Grows =
          Ensures->>= (Grows s es) (value_text j (codes "user_id") []) _ λ u.
            post-same s session (auth (record { session_id = session_id; user_id = u })) es refl

      dispatch_typing-Grows : Ensures (Grows s es) (dispatch_typing json q s j)
      unfolding dispatch_typing
      dispatch_typing-Grows =
          Ensures->>= (Grows s es) (value_text j (codes "chat_id") []) _ λ chat_id.
            Ensures->>= (Grows s es) (value_text j (codes "user_id") []) _ λ user_id.
              post-same s message (typing (record { chat_id = chat_id; user_id = user_id })) es refl

      dispatch_read-Grows : Ensures (Grows s es) (dispatch_read json q s j)
      unfolding dispatch_read
      dispatch_read-Grows =
          Ensures->>= (Grows s es) (value_text j (codes "chat_id") []) _ λ chat_id.
            Ensures->>= (Grows s es) (value_text j (codes "user_id") []) _ λ user_id.
              Ensures->>= (Grows s es) (value_text j (codes "message_id") []) _ λ message_id.
                post-same s message
                  (read (record { chat_id = chat_id; user_id = user_id; message_id = message_id }))
                  es refl

      unchanged : Grows s es s
      unchanged = ([], Sublistᴰ.nil-sublist (map letter_of es), sym (append-nil (in_flight q s)))

    dispatch_type-Grows :
        (type : Bytes)
        → Ensures
            (Grows s (requested_in json session_id j type))
            (dispatch_type json q s session_id j type)
    unfolding dispatch_type
    dispatch_type-Grows type =
        let es = requested_in json session_id j type in
        Ensures-if (Grows s es) (same type (codes "auth")) _ _ (dispatch_auth-Grows es)
          (elim (Bool-cases (same type (codes "send_message"))) [
            | inl sends ↦ rw sends dispatch_send_message-Grows
            | inr other ↦ rw other (
                Ensures-if (Grows s []) (same type (codes "typing")) _ _ (dispatch_typing-Grows [])
                  (Ensures-if (Grows s []) (same type (codes "message_read")) _ _
                    (dispatch_read-Grows []) (unchanged [])))
          ])

  pub dispatch-Grows :
      (s : ActorSystem q) (session_id raw_message : Bytes)
      → Ensures
          (Grows s (requested json session_id raw_message))
          (dispatch json q s session_id raw_message)
  unfolding dispatch dispatch_json requested
  dispatch-Grows s session_id raw_message =
      let j = parse_quietly json raw_message in
      elim (Bool-cases (is_object j)) [
        | inl object ↦ elim (Outcome-cases (value_text j (codes "type") [])) [
          | inl (type, typed) ↦ rw (object, typed) (dispatch_type-Grows s session_id j type)
          | inr (x, failed) ↦ rw (object, failed) tt
        ]
        | inr other ↦ rw other (unchanged s session_id j [])
      ]
