-- ===== src/Runtime/Letters/Handlers.antt =====
-- Where the handlers bring what they are given: the message actor to the chat actor, the chat actor to
-- the storage, and the storage to the repository.
use mathlib.Core.List.{Sublistᴰ}
use mathlib.Core.List.Sublistᴰ
use svitock.Base.{
  ◌≡◌, refl, ap, ◌∙◌, inl, inr, List, [], ◌∷◌, ◌++◌, append-nil, is_empty, ok, Bool-cases,
  if◌then◌else◌, arith, subst,
}
use svitock.Extern.Queue.{IsFifo}
use svitock.Application.Ports.{KeepsMessages}
use svitock.Actor.Payload.{
  ActorType, ActorPayload, SendMessageEvent, StoragePersistMessage, session, chat, message, storage,
  send_message, persist, outgoing, same_type,
}
use svitock.Actor.System.{ActorSystem}
use svitock.Dispatcher.{post}
use svitock.Runtime.{
  Platform, Stamp, World, handle, handle_chat, handle_message, handle_session, handle_storage,
  deliver, route_message, delivered_event, incoming_event,
}
use svitock.Runtime.Provenance.{class_for, handle_session-system, handle_storage-system}
use svitock.Runtime.Letters.{
  letter_of, letters_in, waiting_at, waiting_at-send, waiting_at-send_silent, if_nil,
}
use svitock.Runtime.Letters.Storing.{Stores, nothing-Stores, store_message-Stores}

-- The letters that an actor of the first type hands to one of the second.
abbrev pub at_type : ActorType → ActorType → List StoragePersistMessage → List StoragePersistMessage
at_type t u x = if same_type t u then x else []

module _ (p : Platform) (keeps : KeepsMessages p.messages) where
  -- What the handler of an actor of the type brings on.
  pub record Carries (w w' : World p) (t : ActorType) (x : List StoragePersistMessage)
      : Type 0 where
    pub to_storage :
        waiting_at p.queue w'.system storage
        ≡ waiting_at p.queue w.system storage ++ at_type t chat x
    pub to_chat :
        waiting_at p.queue w'.system chat ≡ waiting_at p.queue w.system chat ++ at_type t message x
    pub to_message : waiting_at p.queue w'.system message ≡ waiting_at p.queue w.system message
    pub stores : Stores p keeps w.stored (at_type t storage x) w'.stored

  abbrev CarriesPart : World p → World p → ActorType → ActorPayload p.json.Json → Type 0
  CarriesPart w w' t payload =
      (x : List StoragePersistMessage) × Sublistᴰ x (letters_in payload) × Carries w w' t x

  -- A handler that leaves the mailboxes and the repository.
  carries_nothing :
      (w w' : World p) (t : ActorType) (payload : ActorPayload p.json.Json)
      → w.system ≡ w'.system
      → w.stored ≡ w'.stored
      → CarriesPart w w' t payload
  carries_nothing w w' t payload same_system same_stored = (
    [],
    Sublistᴰ.nil-sublist (letters_in payload),
    record {
      to_storage = simp (← same_system, if_nil, append-nil);
      to_chat = simp (← same_system, if_nil, append-nil);
      to_message = simp (← same_system);
      stores =
          rw (if_nil {A = StoragePersistMessage} (same_type t storage))
            (nothing-Stores p keeps w.stored w'.stored same_stored);
    },
  )

  handle_session-stored :
      (w w' : World p) (payload : ActorPayload p.json.Json)
      → handle_session p w payload ≡ ok w'
      → w.stored ≡ w'.stored
  unfolding handle_session deliver
  handle_session-stored w w' (outgoing o) e = ground arith
  handle_session-stored w w' _ e = ground arith

  module _ (fifo : IsFifo p.queue) where
    -- The chat actor posts one letter, and notices, which bring none.
    route_message-waiting :
        (s : ActorSystem p.queue) (e : SendMessageEvent)
        → (x : List StoragePersistMessage) × Sublistᴰ x (letter_of e ∷ [])
          × ((t : ActorType)
              → waiting_at p.queue (route_message p s e) t
                ≡ waiting_at p.queue s t ++ at_type storage t x)
    unfolding route_message
    route_message-waiting s e =
        let (x, part, added) =
          waiting_at-send p.queue fifo s
            (record { destination = storage; payload = persist (letter_of e) }) in
        let echoed = λ (t : ActorType).
          waiting_at-send_silent p.queue fifo
            (post p.json p.queue s storage (persist (letter_of e)))
            (record {
              destination = session;
              payload =
                  outgoing (record { session_id = e.session_id; payload = delivered_event p e });
            })
            t refl in
        (
          x,
          part,
          λ t. elim (Bool-cases (is_empty e.recipient_id)) [
            | inl alone ↦ rw (route_message, alone) (echoed t ∙ added t)
            | inr named ↦
                rw (route_message, named)
                  (waiting_at-send_silent p.queue fifo _
                      (record {
                        destination = session;
                        payload =
                            outgoing (record {
                              session_id = e.recipient_id;
                              payload = incoming_event p e;
                            });
                      })
                      t refl
                    ∙ (echoed t ∙ added t))
          ],
        )

    chat-Carries :
        (w w' : World p) (payload : ActorPayload p.json.Json)
        → record w { system = handle_chat p w.system payload } ≡ w'
        → CarriesPart w w' chat payload
    unfolding handle_chat
    chat-Carries w w' (send_message e) h =
        let (x, part, added) = route_message-waiting w.system e in
        subst (λ w'. CarriesPart w w' chat (send_message e)) h
          (
            x,
            part,
            record {
              to_storage = added storage;
              to_chat = added chat;
              to_message = added message ∙ append-nil (waiting_at p.queue w.system message);
              stores = nothing-Stores p keeps w.stored w.stored refl;
            },
          )
    chat-Carries w w' payload h =
        carries_nothing w w' chat payload (ap (λ w. w.system) h) (ap (λ w. w.stored) h)

    message-Carries :
        (w w' : World p) (payload : ActorPayload p.json.Json)
        → record w { system = handle_message p w.system payload } ≡ w'
        → CarriesPart w w' message payload
    unfolding handle_message
    message-Carries w w' (send_message e) h =
        let (x, part, added) =
          waiting_at-send p.queue fifo w.system
            (record { destination = chat; payload = send_message e }) in
        subst (λ w'. CarriesPart w w' message (send_message e)) h
          (
            x,
            part,
            record {
              to_storage = added storage;
              to_chat = added chat;
              to_message = added message ∙ append-nil (waiting_at p.queue w.system message);
              stores = nothing-Stores p keeps w.stored w.stored refl;
            },
          )
    message-Carries w w' payload h =
        carries_nothing w w' message payload (ap (λ w. w.system) h) (ap (λ w. w.stored) h)

    storage-Carries :
        (stamp : Stamp p) (w w' : World p) (payload : ActorPayload p.json.Json)
        → handle_storage p stamp w payload ≡ ok w'
        → CarriesPart w w' storage payload
    unfolding handle_storage
    storage-Carries stamp w w' (persist l) h =
        let (x, part, stores) = store_message-Stores p keeps stamp w w' l h in
        let same = handle_storage-system p stamp w (persist l) w' h in
        (
          x,
          part,
          record {
            to_storage = simp (← same, append-nil);
            to_chat = simp (← same, append-nil);
            to_message = simp (← same);
            stores = stores;
          },
        )
    storage-Carries stamp w w' payload h =
        carries_nothing w w' storage payload (handle_storage-system p stamp w payload w' h)
          (ground arith)

    pub handle-Carries :
        (stamp : Stamp p) (w w' : World p) (t : ActorType) (payload : ActorPayload p.json.Json)
        → handle p stamp w (class_for t) payload ≡ ok w'
        → CarriesPart w w' t payload
    unfolding handle
    handle-Carries stamp w w' session payload h =
        carries_nothing w w' session payload (handle_session-system p w payload w' h)
          (handle_session-stored w w' payload h)
    handle-Carries stamp w w' chat payload h = chat-Carries w w' payload (ground arith)
    handle-Carries stamp w w' message payload h = message-Carries w w' payload (ground arith)
    handle-Carries stamp w w' storage payload h = storage-Carries stamp w w' payload h
