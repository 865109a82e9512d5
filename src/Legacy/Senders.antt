-- ===== src/Legacy/Senders.antt =====
-- Who may store a message.
use svitock.Base.{
  ℕ, ◌≡◌, refl, ◌⊎◌, inl, inr, Bool, true, false, ◌||◌, Option, none, some, [], Bytes, codes, same,
  is_empty, Outcome, ok, throws, ◌>>=◌, Ensures, Ensures->>=, Ensures->>=_eq, Ensures-if,
  Bool-cases, arith,
}
use svitock.Extern.Json.{JsonLib}
use svitock.Extern.Uuid.{UuidLib}
use svitock.Domain.{Message}
use svitock.Application.Ports.{MessageRepository}
use svitock.Application
use svitock.Legacy.{
  LegacyState, user_id_of, send_text, authenticate, store_sent, check_sent, handle_auth, answer,
  find_session, handle_send_message, dispatch_type, dispatch_message,
}

module _ (json : JsonLib) (uuid : UuidLib) (messages : MessageRepository uuid.Uuid) where
  -- The call changed nothing in the repository, or it created one message, with text, whose sender
  -- is the user that the session has authenticated as.
  abbrev pub StoresOwn : LegacyState messages → ℕ → LegacyState messages → Type 0
  StoresOwn s self s' =
      (s'.stored ≡ s.stored)
      ⊎ ((m : Message uuid.Uuid) × (b : Bool) × (messages.create s.stored m ≡ ok (s'.stored, b))
          × (uuid.string_generator (user_id_of json uuid messages s self) ≡ ok m.sender_id)
          × (is_empty (user_id_of json uuid messages s self) ≡ false)
          × (is_empty m.content ≡ false))

  module _ (s : LegacyState messages) (self : ℕ) where
    abbrev Keeps : Outcome (LegacyState messages) → Type 0
    Keeps = Ensures (StoresOwn s self)

    authenticate-stored :
        (user_id : Bytes) → (authenticate json uuid messages s self user_id).stored ≡ s.stored
    unfolding authenticate
    authenticate-stored user_id = ground arith

    handle_auth-StoresOwn : (j : json.Json) → Keeps (handle_auth json uuid messages s self j)
    unfolding handle_auth
    handle_auth-StoresOwn j =
        Ensures->>= (StoresOwn s self) (json.value_text j (codes "user_id") []) _
          λ u. inl (authenticate-stored u)

    answer-StoresOwn :
        (t : LegacyState messages) (chat_id to content : Bytes) (b : Bool)
        → StoresOwn s self t
        → Keeps (answer json uuid messages t self chat_id to content b)
    unfolding answer
    answer-StoresOwn t chat_id to content false h = h
    answer-StoresOwn t chat_id to content true h =
        Ensures->>= (StoresOwn s self) (json.dump _) _ λ outgoing.
          Ensures-if (StoresOwn s self) (is_empty to) _ _ h
            (each_recipient (find_session t.objects t.manager to) outgoing)
      where
        each_recipient :
            (o : Option ℕ) (outgoing : Bytes)
            → Keeps (elim o [
              | none ↦ ok (send_text json uuid messages t self outgoing)
              | some recipient ↦ ok (
                  send_text json uuid messages
                    (send_text json uuid messages t self outgoing)
                    recipient
                    outgoing)
            ])
        each_recipient none outgoing = h
        each_recipient (some recipient) outgoing = h

    store_sent-StoresOwn :
        (id : uuid.Uuid) (now : ℕ) (chat_text to content : Bytes)
        → is_empty content ≡ false
        → is_empty (user_id_of json uuid messages s self) ≡ false
        → Keeps (store_sent json uuid messages id now s self chat_text to content)
    unfolding store_sent Application.send_message
    store_sent-StoresOwn id now chat_text to content full known =
        Ensures->>= (StoresOwn s self) (uuid.string_generator chat_text) _ λ chat_id.
          Ensures->>=_eq (StoresOwn s self)
            (uuid.string_generator (user_id_of json uuid messages s self)) _
            λ sender_id parsed. rw full (
              Ensures->>=_eq (StoresOwn s self)
                (messages.create s.stored (record {
                  id = id;
                  chat_id = chat_id;
                  sender_id = sender_id;
                  content = content;
                  created_at = now;
                }))
                _
                λ result created.
                  answer-StoresOwn (record s { stored = result.0 }) chat_text to content result.1
                    (inr (_, result.1, created, parsed, known, full)))

    check_sent-StoresOwn :
        (id : uuid.Uuid) (now : ℕ) (chat_text to content : Bytes)
        → Keeps (check_sent json uuid messages id now s self chat_text to content)
    unfolding check_sent
    check_sent-StoresOwn id now chat_text to content =
        elim (Bool-cases (is_empty chat_text || is_empty content)) [
          | inl empty ↦ rw empty (inl refl)
          | inr full ↦ elim (Bool-cases (is_empty (user_id_of json uuid messages s self))) [
            | inl unknown ↦ rw (full, unknown) (inl refl)
            | inr known ↦
                rw (full, known)
                  (store_sent-StoresOwn id now chat_text to content (ground (arith, full)) known)
          ]
        ]

    handle_send_message-StoresOwn :
        (id : uuid.Uuid) (now : ℕ) (j : json.Json)
        → Keeps (handle_send_message json uuid messages id now s self j)
    unfolding handle_send_message
    handle_send_message-StoresOwn id now j =
        Ensures->>= (StoresOwn s self) (json.value_text j (codes "chat_id") []) _ λ chat_text.
          Ensures->>= (StoresOwn s self) (json.value_text j (codes "to_user_id") []) _ λ to.
            Ensures->>= (StoresOwn s self) (json.value j (codes "payload") json.object) _ λ payload.
              Ensures->>= (StoresOwn s self) (json.value_text payload (codes "text") []) _
                λ content. check_sent-StoresOwn id now chat_text to content

    -- Whatever a session sends: if the handler returns, the repository is as it was, or one message
    -- was created in it, with a text that is not empty, whose sender is the user, not empty, that the
    -- session has authenticated as.
    pub dispatch_message-StoresOwn :
        (id : uuid.Uuid) (now : ℕ) (raw_message : Bytes)
        → Keeps (dispatch_message json uuid messages id now s self raw_message)
    unfolding dispatch_message
    dispatch_message-StoresOwn id now raw = by_parse (json.parse raw)
      where
        typed :
            (j : json.Json) (type : Bytes)
            → Keeps (dispatch_type json uuid messages id now s self j type)
        typed j type =
            Ensures-if (StoresOwn s self) (same type (codes "auth")) _ _ (handle_auth-StoresOwn j) (
              Ensures-if (StoresOwn s self) (same type (codes "send_message")) _ _
                (handle_send_message-StoresOwn id now j)
                (Ensures-if (StoresOwn s self) (same type (codes "typing")) _ _
                  (Ensures->>= (StoresOwn s self) (json.dump j) _ λ line. inl refl)
                  (Ensures-if (StoresOwn s self) (same type (codes "message_read")) _ _
                    (Ensures->>= (StoresOwn s self) (json.dump j) _ λ line. inl refl)
                    (Ensures-if (StoresOwn s self) (same type (codes "ping")) _ _ (inl refl)
                      (inl refl)))))

        by_parse :
            (o : Outcome json.Json)
            → Keeps (elim o [
              | throws e ↦ ok (
                  send_text json uuid messages s self
                    (codes "{\"type\":\"error\",\"payload\":{\"message\":\"invalid json\"}}"))
              | ok message ↦
                  json.value_text message (codes "type") []
                  >>= dispatch_type json uuid messages id now s self message
            ])
        by_parse (throws e) = inl refl
        by_parse (ok j) =
            Ensures->>= (StoresOwn s self) (json.value_text j (codes "type") []) _ (typed j)
