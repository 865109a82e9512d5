-- ===== src/Runtime/Provenance.antt =====
-- Where every waiting envelope comes from, in a running server.
use svitock.Base.{
  ◌≡◌, refl, sym, ap, subst, ◌∙◌, Bool, true, false, inl, inr, ◌⊎◌, some, Outcome, ok, >>=-eq-ok,
  Bool-cases, Option-cases, arith, is_empty,
}
use svitock.Extern.Queue.{IsFifo}
use svitock.Actor.Payload.{
  ActorType, ActorPayload, ActorEnvelope, SendMessageEvent, StoragePersistMessage,
  SessionOutgoingEvent, session, chat, message, storage, auth, send_message, typing, read, persist,
  outgoing,
}
use svitock.Actor.Mailbox.{pop}
use svitock.Actor.System.{
  Actor, ActorClass, ActorSystem, session_actor, chat_actor, message_actor, storage_actor,
}
use svitock.Actor.System.Routing.{class_at, class_at-send}
use svitock.Actor.System.Waiting.{
  AllWaiting, take_one, send-AllWaiting, take_one-none, take_one-some, class_at-take_one,
}
use svitock.Dispatcher.{post}
use svitock.Runtime.{
  Platform, Stamp, World, delivered_event, incoming_event, route_message, handle_chat,
  handle_message, handle_session, handle_storage, deliver, store_message, handle,
}
use svitock.Runtime.Worker.{visit, visit-missing, visit-idle, visit-busy}

-- The class that the server registers for each type.
abbrev pub class_for : ActorType → ActorClass
class_for session = session_actor
class_for chat = chat_actor
class_for message = message_actor
class_for storage = storage_actor

module _ (p : Platform) where
  abbrev pub IsServer : ActorSystem p.queue → Type 0
  IsServer s = (t : ActorType) → class_at p.queue s t ≡ some (class_for t)

  -- A message to store that a sent message asks for.
  abbrev pub Persists : SendMessageEvent → StoragePersistMessage → Type 0
  Persists e m = (m.chat_id ≡ e.chat_id) × (m.sender_id ≡ e.sender_id) × (m.content ≡ e.text)

  -- A notice that a sent message asks for: the echo to its own session, or the text to the session
  -- that it names, if it names one.
  abbrev pub Notifies : SendMessageEvent → SessionOutgoingEvent p.json.Json → Type 0
  Notifies e o =
      ((o.session_id ≡ e.session_id) × (o.payload ≡ delivered_event p e))
      ⊎ ((o.session_id ≡ e.recipient_id)
          × (o.payload ≡ incoming_event p e)
          × (is_empty e.recipient_id ≡ false))

module _ (p : Platform) where
  pub same_system :
      (w w' : World p) (b b' : Bool)
      → ◌≡◌ {A = Outcome (World p × Bool)} (ok (w, b)) (ok (w', b'))
      → w.system ≡ w'.system
  same_system w w' b b' h = ground arith

  pub handle_session-system :
      (w : World p) (payload : ActorPayload p.json.Json) (w' : World p)
      → handle_session p w payload ≡ ok w'
      → w.system ≡ w'.system
  unfolding handle_session deliver
  handle_session-system w (outgoing o) w' e = ground arith
  handle_session-system w _ w' e = ground arith

  pub handle_storage-system :
      (stamp : Stamp p) (w : World p) (payload : ActorPayload p.json.Json) (w' : World p)
      → handle_storage p stamp w payload ≡ ok w'
      → w.system ≡ w'.system
  unfolding handle_storage store_message
  handle_storage-system stamp w (persist m) w' e = ground arith
  handle_storage-system stamp w _ w' e = ground arith

module _ (p : Platform) (P : SendMessageEvent → Type 0) where
  -- What may wait for each actor, where `P` says which messages stand behind the envelopes: it says
  -- only as much of an envelope as `P` does of a message.
  abbrev pub IsGenuine : ActorType → ActorPayload p.json.Json → Type 0
  IsGenuine session (auth e) = Unit {0}
  IsGenuine session (outgoing o) = (e : SendMessageEvent) × P e × Notifies p e o
  IsGenuine chat (send_message e) = P e
  IsGenuine message (send_message e) = P e
  IsGenuine message (typing e) = Unit {0}
  IsGenuine message (read e) = Unit {0}
  IsGenuine storage (persist m) = (e : SendMessageEvent) × P e × Persists p e m
  IsGenuine _ _ = ⊥

  abbrev pub AllGenuine : ActorSystem p.queue → Type 0
  AllGenuine = AllWaiting p.queue (λ t e. IsGenuine t e.payload)

  -- The invariant of a running server.
  pub record IsSound (s : ActorSystem p.queue) : Type 0 where
    pub server : IsServer p s
    pub genuine : AllGenuine s

module _ (p : Platform) (fifo : IsFifo p.queue) (P : SendMessageEvent → Type 0) where
  pub post-IsSound :
      (s : ActorSystem p.queue) (t : ActorType) (payload : ActorPayload p.json.Json)
      → IsGenuine p P t payload
      → IsSound p P s
      → IsSound p P (post p.json p.queue s t payload)
  post-IsSound s t payload g v = record {
    server = λ u. rw (class_at-send p.queue fifo s _ u) (v.server u);
    genuine =
        send-AllWaiting p.queue fifo (λ u e. IsGenuine p P u e.payload) s
          (record { destination = t; payload = payload }) g v.genuine;
  }

  route_message-IsSound :
      (s : ActorSystem p.queue) (e : SendMessageEvent)
      → P e
      → IsSound p P s
      → IsSound p P (route_message p s e)
  unfolding route_message
  route_message-IsSound s e h v = elim (Bool-cases (is_empty e.recipient_id)) [
    | inl alone ↦ rw alone echoed
    | inr named ↦ rw named (post-IsSound _ session _ (e, h, inr (refl, refl, named)) echoed)
  ]
    where
      echoed : IsSound p P (
          post p.json p.queue
            (post p.json p.queue s storage
              (persist (record { chat_id = e.chat_id; sender_id = e.sender_id; content = e.text })))
            session
            (outgoing (record { session_id = e.session_id; payload = delivered_event p e })))
      echoed =
          post-IsSound _ session _ (e, h, inl (refl, refl))
            (post-IsSound s storage _ (e, h, (refl, refl, refl)) v)

  pub handle-IsSound :
      (stamp : Stamp p) (w : World p) (t : ActorType) (payload : ActorPayload p.json.Json)
      (w' : World p)
      → IsGenuine p P t payload
      → IsSound p P w.system
      → handle p stamp w (class_for t) payload ≡ ok w'
      → IsSound p P w'.system
  unfolding handle handle_chat handle_message
  handle-IsSound stamp w session payload w' g v e =
      subst (IsSound p P) (handle_session-system p w payload w' e) v
  handle-IsSound stamp w chat (send_message m) w' g v e =
      subst (IsSound p P) (ground arith) (route_message-IsSound w.system m g v)
  handle-IsSound stamp w chat _ w' g v e = absurd g
  handle-IsSound stamp w message (send_message m) w' g v e =
      subst (IsSound p P) (ground arith) (post-IsSound w.system chat (send_message m) g v)
  handle-IsSound stamp w message _ w' g v e = subst (IsSound p P) (ground arith) v
  handle-IsSound stamp w storage payload w' g v e =
      subst (IsSound p P) (handle_storage-system p stamp w payload w' e) v

  pub take_one-IsServer :
      (s : ActorSystem p.queue) (t : ActorType) (actor : Actor p.queue)
      → s.actors t ≡ some actor
      → IsSound p P s
      → IsServer p (take_one p.queue s t actor)
  take_one-IsServer s t actor found v u =
      rw (class_at-take_one p.queue fifo s t u actor found) (v.server u)

  pub class_at_found :
      (s : ActorSystem p.queue) (t : ActorType) (actor : Actor p.queue)
      → s.actors t ≡ some actor
      → IsSound p P s
      → actor.class ≡ class_for t
  class_at_found s t actor found v = ground (arith, v.server t)

  -- A step of a worker, whichever actor it looks at, keeps the server sound.
  pub visit-IsSound :
      (stamp : Stamp p) (w : World p) (t : ActorType) (w' : World p) (processed : Bool)
      → IsSound p P w.system
      → visit p stamp w t ≡ ok (w', processed)
      → IsSound p P w'.system
  visit-IsSound stamp w t w' processed v e = elim (Option-cases (w.system.actors t)) [
    | inl missing ↦
        subst (IsSound p P)
          (same_system p w w' false processed (sym (visit-missing p stamp w t missing) ∙ e)) v
    | inr (actor, found) ↦ elim (Option-cases (pop p.queue actor.mailbox).1) [
      | inl empty ↦
          subst (IsSound p P)
            (same_system p _ w' false processed
              (sym (visit-idle p stamp w t actor found empty) ∙ e))
            (record {
              server = take_one-IsServer w.system t actor found v;
              genuine = (take_one-none p.queue fifo Q w.system t actor found empty v.genuine).1;
            })
      | inr (envelope, popped) ↦
          let (g, rest) =
            take_one-some p.queue fifo Q w.system t actor envelope found popped v.genuine in
          let w0 : World p = record w { system = take_one p.queue w.system t actor } in
          let (w1, handled, same) =
            >>=-eq-ok (handle p stamp w0 actor.class envelope.payload) (λ r. ok (r, true))
              (sym (visit-busy p stamp w t actor envelope found popped) ∙ e) in
          subst (IsSound p P) (same_system p w1 w' true processed same) (
            handle-IsSound stamp w0 t envelope.payload w1 g
              (record { server = take_one-IsServer w.system t actor found v; genuine = rest })
              (ap (λ c. handle p stamp w0 c envelope.payload)
                  (sym (class_at_found w.system t actor found v))
                ∙ handled))
    ]
  ]
    where
      Q : ActorType → ActorEnvelope p.json.Json → Type 0
      Q u e = IsGenuine p P u e.payload
