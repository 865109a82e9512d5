-- ===== src/Runtime/Settling/Returning.antt =====
-- No handler throws on what it can read, and then the workers return.
use svitock.Base.{
  ◌≡◌, refl, sym, subst, inl, inr, List, [], ◌∷◌, length, ◌≤◌, All, ok, Returns, Returns->>=,
  Returns-if, Ensures-ok, Option-cases, true,
}
use svitock.Base.Dict.{lookup}
use svitock.Extern.Queue.{IsFifo}
use svitock.Domain.{Message}
use svitock.Actor.Payload.{
  ActorType, ActorPayload, SendMessageEvent, SessionOutgoingEvent, StoragePersistMessage, session,
  chat, message, storage, auth, persist, outgoing,
}
use svitock.Actor.Mailbox.{pop}
use svitock.Actor.System.Waiting.{take_one, take_one-some}
use svitock.Runtime.{
  Platform, Stamp, World, handle, handle_session, handle_storage, deliver, store_message,
  delivered_event, incoming_event,
}
use svitock.Runtime.Worker.{visit, visit-missing, visit-idle, visit-busy, round, worker_loop}
use svitock.Runtime.Provenance.{
  class_for, IsGenuine, Notifies, Persists, IsSound, visit-IsSound, class_at_found,
}
use svitock.Runtime.Pipeline.{Covers}
use svitock.Runtime.Load.{load}
use svitock.Runtime.Settling.{round-IsProgress}
use svitock.Runtime.Settling.Quiet.{IsQuiet, worker_loop-IsQuiet}

module _ (p : Platform) where
  -- A message whose identifiers parse and whose notices can be written.
  pub record IsReadable (e : SendMessageEvent) : Type 0 where
    pub chat_id_parsed : Returns (p.uuid.string_generator e.chat_id)
    pub sender_id_parsed : Returns (p.uuid.string_generator e.sender_id)
    pub echo_dumped : Returns (p.json.dump (delivered_event p e))
    pub incoming_dumped : Returns (p.json.dump (incoming_event p e))

  dump_notice :
      (e : SendMessageEvent) (o : SessionOutgoingEvent p.json.Json)
      → IsReadable e
      → Notifies p e o
      → Returns (p.json.dump o.payload)
  dump_notice e o readable (inl (same_id, echo)) = rw echo readable.echo_dumped
  dump_notice e o readable (inr (same_id, incoming, named)) = rw incoming readable.incoming_dumped

  deliver-Returns :
      (w : World p) (o : SessionOutgoingEvent p.json.Json)
      → Returns (p.json.dump o.payload)
      → Returns (deliver p w o)
  unfolding deliver
  deliver-Returns w o dumped = elim (Option-cases (lookup o.session_id w.transports)) [
    | inl unbound ↦ rw (deliver, unbound) (w, refl)
    | inr (address, bound) ↦ elim (Option-cases (w.objects address)) [
      | inl expired ↦ rw (deliver, bound, expired) (w, refl)
      | inr (transport, alive) ↦
          rw (deliver, bound, alive)
            (Returns->>= (p.json.dump o.payload) _ dumped (λ text h. (_, refl)))
    ]
  ]

  module _
      (stores : (s : p.messages.State) (m : Message p.uuid.Uuid)
        → Returns (p.messages.create s m)) where
    store_message-Returns :
        (stamp : Stamp p) (w : World p) (e : SendMessageEvent) (m : StoragePersistMessage)
        → IsReadable e
        → Persists p e m
        → Returns (store_message p stamp w m)
    unfolding store_message
    store_message-Returns stamp w e m readable (same_chat, same_sender, same_text) =
        Returns->>= (p.uuid.string_generator m.chat_id) _ (rw same_chat readable.chat_id_parsed)
          (λ chat_id h.
            Returns->>= (p.uuid.string_generator m.sender_id) _
              (rw same_sender readable.sender_id_parsed)
              (λ sender_id h'.
                Returns->>= (p.messages.create w.stored _) _ (stores w.stored _)
                  (λ r h''. (_, refl))))

    handle-Returns :
        (stamp : Stamp p) (w : World p) (t : ActorType) (payload : ActorPayload p.json.Json)
        → IsGenuine p IsReadable t payload
        → Returns (handle p stamp w (class_for t) payload)
    unfolding handle handle_session handle_storage
    handle-Returns stamp w session (auth e) g = (_, refl)
    handle-Returns stamp w session (outgoing o) (e, readable, notifies) =
        deliver-Returns w o (dump_notice e o readable notifies)
    handle-Returns stamp w session _ g = absurd g
    handle-Returns stamp w chat payload g = (_, refl)
    handle-Returns stamp w message payload g = (_, refl)
    handle-Returns stamp w storage (persist m) (e, readable, persists) =
        store_message-Returns stamp w e m readable persists
    handle-Returns stamp w storage _ g = absurd g

    module _ (fifo : IsFifo p.queue) where
      visit-Returns :
          (stamp : Stamp p) (w : World p) (t : ActorType)
          → IsSound p IsReadable w.system
          → Returns (visit p stamp w t)
      visit-Returns stamp w t v = elim (Option-cases (w.system.actors t)) [
        | inl missing ↦ (_, visit-missing p stamp w t missing)
        | inr (actor, found) ↦ elim (Option-cases (pop p.queue actor.mailbox).1) [
          | inl empty ↦ (_, visit-idle p stamp w t actor found empty)
          | inr (e, popped) ↦
              let w0 : World p = record w { system = take_one p.queue w.system t actor } in
              let (g, rest) =
                take_one-some p.queue fifo (λ u e. IsGenuine p IsReadable u e.payload) w.system t
                  actor e found popped v.genuine in
              let handled =
                subst (λ c. Returns (handle p stamp w0 c e.payload))
                  (sym (class_at_found p fifo IsReadable w.system t actor found v))
                  (handle-Returns stamp w0 t e.payload g) in
              subst Returns (sym (visit-busy p stamp w t actor e found popped)) (
                Returns->>= (handle p stamp w0 actor.class e.payload) (λ w'. ok (w', true)) handled
                  (λ w' h. (_, refl)))
        ]
      ]

      round-Returns :
          (order : List (ActorType × Stamp p)) (w : World p)
          → IsSound p IsReadable w.system
          → Returns (round p w order)
      unfolding round
      round-Returns [] w v = (_, refl)
      round-Returns ((t, stamp) ∷ order) w v =
          Returns->>= (visit p stamp w t) _ (visit-Returns stamp w t v) (λ visited h.
            Returns->>= (round p visited.0 order) _
              (round-Returns order visited.0
                (visit-IsSound p fifo IsReadable stamp w t visited.0 visited.1 v h))
              (λ rest h'. (_, refl)))

      worker_loop-Returns :
          (rounds : List (List (ActorType × Stamp p))) (w : World p)
          → IsSound p IsReadable w.system
          → Returns (worker_loop p w rounds)
      unfolding worker_loop
      worker_loop-Returns [] w v = (w, refl)
      worker_loop-Returns (order ∷ rounds) w v = Returns-if w.system.running _ w (
          Returns->>= (round p w order) (λ result. worker_loop p result.0 rounds)
            (round-Returns order w v)
            (λ result done.
              worker_loop-Returns rounds result.0
                (round-IsProgress p fifo IsReadable order w result.0 result.1 v done).0))

      -- Over a repository whose `create` never throws, on a running server in which every mailbox
      -- holds only what its actor handles for messages whose two identifiers parse and whose two
      -- notices can be written, whether or not their sessions are alive and with mailboxes of any
      -- size: as many rounds as the load of the waiting envelopes, or more, each of which visits
      -- every actor, in any order and any number of times, return, and leave no envelope in any
      -- mailbox.
      pub worker_loop-settles :
          (rounds : List (List (ActorType × Stamp p))) (w : World p)
          → IsSound p IsReadable w.system
          → w.system.running ≡ true
          → All (Covers p) rounds
          → load p w.system ≤ length rounds
          → (w' : World p) × (worker_loop p w rounds ≡ ok w') × IsQuiet p w'.system
      worker_loop-settles rounds w v runs covers enough =
          let (w', returned) = worker_loop-Returns rounds w v in
          (
            w',
            returned,
            Ensures-ok (λ w'. IsQuiet p w'.system) (worker_loop p w rounds) w'
                (worker_loop-IsQuiet p fifo IsReadable rounds w v runs covers enough) returned,
          )
