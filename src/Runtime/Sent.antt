-- ===== src/Runtime/Sent.antt =====
-- The messages that stand behind every waiting envelope: those that the dispatched texts asked to
-- send, each from the session that its text came in.
use svitock.Base.{
  ℕ, ◌≡◌, refl, subst, ◌⊎◌, inl, inr, List, [], ◌∷◌, ◌++◌, All, Bytes, codes, same, Outcome-cases,
  Bool-cases, Ensures, Ensures-ok, Ensures->>=, Ensures-if,
}
use svitock.Extern.Json.{parse_quietly}
use svitock.Extern.Queue.{IsFifo}
use svitock.Actor.Payload.{
  ActorType, ActorPayload, ActorEnvelope, SendMessageEvent, session, chat, message, storage, auth,
  send_message, typing, read, persist, outgoing,
}
use svitock.Actor.System.{ActorSystem}
use svitock.Actor.System.Routing.{queued}
use svitock.Dispatcher.{dispatch, dispatch_json, dispatch_type}
use svitock.Runtime.{Platform, World}
use svitock.Runtime.Worker.{server_actors}
use svitock.Runtime.Provenance.{IsGenuine, IsSound, post-IsSound}
use svitock.Runtime.Start.{server_actors-IsServer, queued-server_actors}
use svitock.Runtime.Reachable.{
  Reach, dispatch_auth-IsSound, dispatch_typing-IsSound, dispatch_read-IsSound,
}
use svitock.Runtime.Letters.Requests.{message_in, requested, dispatch_send_message_lem}
use svitock.Runtime.Letters.Order.{asked}

abbrev pub IsAmong : SendMessageEvent → List SendMessageEvent → Type 0
IsAmong e [] = ⊥
IsAmong e (x ∷ xs) = (x ≡ e) ⊎ IsAmong e xs

pub IsAmong-left :
    (e : SendMessageEvent) (xs ys : List SendMessageEvent) → IsAmong e xs → IsAmong e (xs ++ ys)
IsAmong-left e [] ys h = absurd h
IsAmong-left e (x ∷ xs) ys (inl h) = inl h
IsAmong-left e (x ∷ xs) ys (inr h) = inr (IsAmong-left e xs ys h)

pub IsAmong-right :
    (e : SendMessageEvent) (xs ys : List SendMessageEvent) → IsAmong e ys → IsAmong e (xs ++ ys)
IsAmong-right e [] ys h = h
IsAmong-right e (x ∷ xs) ys h = inr (IsAmong-right e xs ys h)

module _ (p : Platform) (P Q : SendMessageEvent → Type 0)
    (more : (e : SendMessageEvent) → P e → Q e) where
  IsGenuine-mono :
      (t : ActorType) (payload : ActorPayload p.json.Json)
      → IsGenuine p P t payload
      → IsGenuine p Q t payload
  IsGenuine-mono session (auth e) g = tt
  IsGenuine-mono session (outgoing o) (e, h, g) = (e, more e h, g)
  IsGenuine-mono session (send_message e) g = absurd g
  IsGenuine-mono session (typing e) g = absurd g
  IsGenuine-mono session (read e) g = absurd g
  IsGenuine-mono session (persist e) g = absurd g
  IsGenuine-mono chat (send_message e) g = more e g
  IsGenuine-mono chat (auth e) g = absurd g
  IsGenuine-mono chat (typing e) g = absurd g
  IsGenuine-mono chat (read e) g = absurd g
  IsGenuine-mono chat (persist e) g = absurd g
  IsGenuine-mono chat (outgoing e) g = absurd g
  IsGenuine-mono message (send_message e) g = more e g
  IsGenuine-mono message (typing e) g = tt
  IsGenuine-mono message (read e) g = tt
  IsGenuine-mono message (auth e) g = absurd g
  IsGenuine-mono message (persist e) g = absurd g
  IsGenuine-mono message (outgoing e) g = absurd g
  IsGenuine-mono storage (persist m) (e, h, g) = (e, more e h, g)
  IsGenuine-mono storage (auth e) g = absurd g
  IsGenuine-mono storage (send_message e) g = absurd g
  IsGenuine-mono storage (typing e) g = absurd g
  IsGenuine-mono storage (read e) g = absurd g
  IsGenuine-mono storage (outgoing e) g = absurd g

  All-IsGenuine :
      (t : ActorType) (es : List (ActorEnvelope p.json.Json))
      → All (λ e. IsGenuine p P t e.payload) es
      → All (λ e. IsGenuine p Q t e.payload) es
  All-IsGenuine t [] g = tt
  All-IsGenuine t (e ∷ es) (g, gs) = (IsGenuine-mono t e.payload g, All-IsGenuine t es gs)

  pub IsSound-mono : (s : ActorSystem p.queue) → IsSound p P s → IsSound p Q s
  IsSound-mono s v = record {
    server = v.server;
    genuine = λ t. All-IsGenuine t (queued p.queue s t) (v.genuine t);
  }

module _ (p : Platform) (fifo : IsFifo p.queue) (P : SendMessageEvent → Type 0) where
  -- A dispatch keeps the envelopes sound where `P` holds of what the text asks to send.
  pub dispatch-requested :
      (s : ActorSystem p.queue) (session_id raw_message : Bytes)
      → ((e : SendMessageEvent) → IsAmong e (requested p.json session_id raw_message) → P e)
      → IsSound p P s
      → Ensures (IsSound p P) (dispatch p.json p.queue s session_id raw_message)
  unfolding dispatch dispatch_json dispatch_type requested
  dispatch-requested s session_id raw h v =
      let j = parse_quietly p.json raw in
      elim (Bool-cases (p.json.is_object j)) [
        | inr other ↦ rw other v
        | inl object ↦ elim (Outcome-cases (p.json.value_text j (codes "type") [])) [
          | inr (x, failed) ↦ rw (object, failed) tt
          | inl (type, typed) ↦
              rw (object, typed)
                (Ensures-if (IsSound p P) (same type (codes "auth")) _ _
                  (dispatch_auth-IsSound p fifo P s v session_id j)
                  (elim (Bool-cases (same type (codes "send_message"))) [
                    | inl sends ↦
                        rw (sends, dispatch_send_message_lem p.json p.queue fifo s session_id j)
                          (elim (Outcome-cases (message_in p.json session_id j)) [
                            | inr (x, failed) ↦ rw failed tt
                            | inl (e, stated) ↦ rw stated (
                                post-IsSound p fifo P s message (send_message e)
                                  (h e (rw (object, typed, sends, stated) (inl refl))) v)
                          ])
                    | inr other ↦ rw other (
                        Ensures-if (IsSound p P) (same type (codes "typing")) _ _
                          (dispatch_typing-IsSound p fifo P s v session_id j)
                          (Ensures-if (IsSound p P) (same type (codes "message_read")) _ _
                            (dispatch_read-IsSound p fifo P s v session_id j) v))
                  ]))
        ]
      ]

  pub new_server-IsSound : (capacity : ℕ) → IsSound p P (server_actors p capacity)
  new_server-IsSound capacity = record {
    server = server_actors-IsServer p capacity;
    genuine = λ t. rw (queued-server_actors p fifo capacity t) tt;
  }

-- What a text asks to send comes from the session of the text.
message_in-session_id :
    (p : Platform) (session_id : Bytes) (j : p.json.Json)
    → Ensures (λ e. e.session_id ≡ session_id) (message_in p.json session_id j)
message_in-session_id p session_id j =
    Ensures->>= _ (p.json.value j (codes "payload") p.json.object) _ λ payload.
      Ensures->>= _ (p.json.value_text j (codes "chat_id") []) _ λ chat_id.
        Ensures->>= _ (p.json.value_text j (codes "sender_id") []) _ λ sender_id.
          Ensures->>= _ (p.json.value_text j (codes "recipient_session_id") []) _ λ recipient_id.
            Ensures->>= _ (p.json.value_text payload (codes "text") []) _ λ text. refl

pub requested-session_id :
    (p : Platform) (session_id raw_message : Bytes) (e : SendMessageEvent)
    → IsAmong e (requested p.json session_id raw_message)
    → e.session_id ≡ session_id
unfolding requested
requested-session_id p session_id raw e =
    let j = parse_quietly p.json raw in
    elim (Bool-cases (p.json.is_object j)) [
      | inr other ↦ rw other (λ h. absurd h)
      | inl object ↦ elim (Outcome-cases (p.json.value_text j (codes "type") [])) [
        | inr (x, failed) ↦ rw (object, failed) (λ h. absurd h)
        | inl (type, typed) ↦ elim (Bool-cases (same type (codes "send_message"))) [
          | inr other ↦ rw (object, typed, other) (λ h. absurd h)
          | inl sends ↦ elim (Outcome-cases (message_in p.json session_id j)) [
            | inr (x, failed) ↦ rw (object, typed, sends, failed) (λ h. absurd h)
            | inl (e', stated) ↦
                let id =
                  Ensures-ok (λ e. e.session_id ≡ session_id) (message_in p.json session_id j) e'
                    (message_in-session_id p session_id j) stated in
                rw (object, typed, sends, stated)
                  (λ h. elim h [
                    | inl same_event ↦ subst (λ e. e.session_id ≡ session_id) same_event id
                    | inr none_else ↦ absurd none_else
                  ])
          ]
        ]
      ]
    ]

module _ (p : Platform) (fifo : IsFifo p.queue) (Connected : Bytes → Type 0) where
  -- A text of a run asked to send it.
  abbrev pub IsAsked : {w w' : World p} → Reach p Connected w w' → SendMessageEvent → Type 0
  IsAsked r e = IsAmong e (asked p Connected r)
