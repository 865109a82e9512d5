-- ===== src/Runtime/Delivery/Simulation.antt =====
-- The visits at which an envelope is handled, and those at an empty mailbox, by stages.
use svitock.Base.{
  ℕ, suc, ◌≤◌, ◌≡◌, refl, true, false, Bool, none, some, List, [], ◌∷◌, ◌++◌, ok, if◌then◌else◌,
  arith,
}
use svitock.Extern.Queue.{IsFifo}
use svitock.Actor.Payload.{
  ActorType, ActorPayload, ActorEnvelope, SendMessageEvent, session, chat, message, storage,
  same_type, send_message,
}
use svitock.Actor.System.{ActorSystem}
use svitock.Dispatcher.{post}
use svitock.Runtime.{
  Platform, Stamp, World, route_message, handle_chat, handle_message, handle_storage, store_message,
  handle,
}
use svitock.Runtime.Worker.{visit}
use svitock.Runtime.Pipeline.{Notices, none_sent, Stage, at_message, at_chat, fanned, by_type}
use svitock.Runtime.Snapshot.{Snapshot, post-Snapshot, visit-Snapshot, visit-Snapshot-idle}
use svitock.Runtime.Provenance.{class_for}
use svitock.Runtime.Delivery.{
  waiting, store_payload, echo_payload, incoming_payload, persisting, IsDeliverable, waits_of,
  room_of, HasReached,
}

abbrev ForEach : (ActorType → Type 0) → Type 0
ForEach Q = Q session × Q chat × Q message × Q storage

each : (Q : ActorType → Type 0) → ForEach Q → (t : ActorType) → Q t
each Q h session = h.0
each Q h chat = h.1
each Q h message = h.2
each Q h storage = h.3

module _ (p : Platform) (fifo : IsFifo p.queue) (w : World p) (e : SendMessageEvent)
    (d : IsDeliverable p w e) where
  abbrev pub Visits : Stage p → Stamp p → World p → ActorType → Type 0
  Visits st stamp v t =
      (v' : World p) × (processed : Bool) × (visit p stamp v t ≡ ok (v', processed))
      × HasReached p w e d st v'

  pub idles :
      (st : Stage p) (stamp : Stamp p) (v : World p) (t : ActorType)
      → HasReached p w e d st v
      → waits_of p e st t ≡ []
      → Visits st stamp v t
  idles st stamp v t r h =
      let (s, snapshot, visited) =
        visit-Snapshot-idle p fifo (waits_of p e st) (room_of p e st) stamp v t r.snapshot h in
      (
        record v { system = s },
        false,
        visited,
        record {
          snapshot = snapshot;
          transports = r.transports;
          objects = r.objects;
          stored = r.stored;
        },
      )

  -- A visit at which the handler takes the envelope `x` and returns.
  pub works :
      (st st' : Stage p) (waits : ActorType → List (ActorEnvelope p.json.Json)) (stamp : Stamp p)
      (v : World p) (t : ActorType) (x : ActorEnvelope p.json.Json)
      → HasReached p w e d st v
      → waits_of p e st t ≡ x ∷ waits t
      → ForEach (λ u. waits u ≡ (if same_type t u then waits t else waits_of p e st u))
      → ((s : ActorSystem p.queue)
          → Snapshot p waits (room_of p e st) s
          → (v' : World p) × (handle p stamp (record v { system = s }) (class_for t) x.payload
              ≡ ok v')
            × HasReached p w e d st' v')
      → Visits st' stamp v t
  works st st' waits stamp v t x r h k f =
      let (s, snapshot, visited) =
        visit-Snapshot p fifo (waits_of p e st) waits (room_of p e st) stamp v t x r.snapshot h
          (each (λ u. waits u ≡ (if same_type t u then waits t else waits_of p e st u)) k) in
      let (v', handled, reached) = f s snapshot in (v', true, rw (visited, handled) refl, reached)

  posts :
      (waits waits' : ActorType → List (ActorEnvelope p.json.Json)) (room room' : ActorType → ℕ)
      (s : ActorSystem p.queue) (t : ActorType) (payload : ActorPayload p.json.Json)
      → Snapshot p waits room s
      → 1 ≤ room t
      → ForEach (λ u. room u ≡ (if same_type t u then suc (room' u) else room' u))
      → ForEach (λ u. waits' u ≡ (
          if same_type t u
          then waits u ++ record { destination = t; payload = payload } ∷ []
          else waits u))
      → Snapshot p waits' room' (post p.json p.queue s t payload)
  posts waits waits' room room' s t payload v h r k =
      post-Snapshot p fifo waits waits' room room' s t payload v h
        (each (λ u. room u ≡ (if same_type t u then suc (room' u) else room' u)) r)
        (each
          (λ u. waits' u ≡ (
            if same_type t u
            then waits u ++ record { destination = t; payload = payload } ∷ []
            else waits u))
          k)

  pub visit-at_message :
      (stamp : Stamp p) (v : World p)
      → HasReached p w e d at_message v
      → Visits at_chat stamp v message
  unfolding handle handle_message
  visit-at_message stamp v r =
      works at_message at_chat (by_type [] [] [] []) stamp v message
        (record { destination = message; payload = send_message e }) r refl (refl, refl, refl, refl)
        λ s snapshot. (
          record v { system = post p.json p.queue s chat (send_message e) },
          refl,
          record {
            snapshot =
                posts _ _ _ _ s chat (send_message e) snapshot (omega arith)
                  (refl, refl, refl, refl) (refl, refl, refl, refl);
            transports = r.transports;
            objects = r.objects;
            stored = r.stored;
          },
        )

  route_message-Snapshot :
      (s : ActorSystem p.queue)
      → Snapshot p (by_type [] [] [] []) (room_of p e at_chat) s
      → Snapshot p
          (waits_of p e (fanned none none_sent))
          (room_of p e (fanned none none_sent))
          (route_message p s e)
  unfolding route_message
  route_message-Snapshot s v =
      let left = persisting p e none in
      let persisted =
        posts (by_type [] [] [] []) (by_type [] [] [] left) (by_type 2 0 0 1) (by_type 2 0 0 0) s
          storage (store_payload p e) v (omega arith) (refl, refl, refl, refl)
          (refl, refl, refl, refl) in
      let echoed =
        posts (by_type [] [] [] left) (by_type (waiting p e session (echo_payload p e)) [] [] left)
          (by_type 2 0 0 0) (by_type 1 0 0 0) _ session (echo_payload p e) persisted (omega arith)
          (refl, refl, refl, refl) (refl, refl, refl, refl) in
      rw d.named (
        posts (by_type (waiting p e session (echo_payload p e)) [] [] left)
          (waits_of p e (fanned none none_sent)) (by_type 1 0 0 0) (by_type 0 0 0 0) _ session
          (incoming_payload p e) echoed (omega arith) (refl, refl, refl, refl)
          (refl, refl, refl, refl))

  pub visit-at_chat :
      (stamp : Stamp p) (v : World p)
      → HasReached p w e d at_chat v
      → Visits (fanned none none_sent) stamp v chat
  unfolding handle handle_chat
  visit-at_chat stamp v r =
      works at_chat (fanned none none_sent) (by_type [] [] [] []) stamp v chat
        (record { destination = chat; payload = send_message e }) r refl (refl, refl, refl, refl)
        λ s snapshot. (
          record v { system = route_message p s e },
          refl,
          record {
            snapshot = route_message-Snapshot s snapshot;
            transports = r.transports;
            objects = r.objects;
            stored = r.stored;
          },
        )

  store_lem :
      (stamp : Stamp p) (v : World p)
      → v.stored ≡ w.stored
      → store_message p stamp v
          (record { chat_id = e.chat_id; sender_id = e.sender_id; content = e.text })
        ≡ ok (record v { stored = (d.after stamp).0 })
  unfolding store_message
  store_lem stamp v h = rw (d.chat_id_parsed, d.sender_id_parsed, h, d.created stamp) refl

  pub visit-storage :
      (k : Notices) (stamp : Stamp p) (v : World p)
      → HasReached p w e d (fanned none k) v
      → Visits (fanned (some stamp) k) stamp v storage
  unfolding handle handle_storage
  visit-storage k stamp v r =
      works (fanned none k) (fanned (some stamp) k) (waits_of p e (fanned (some stamp) k)) stamp v
        storage _ r refl (refl, refl, refl, refl)
        λ s snapshot. (
          _,
          store_lem stamp (record v { system = s }) r.stored,
          record {
            snapshot = snapshot;
            transports = r.transports;
            objects = r.objects;
            stored = refl;
          },
        )
