-- ===== src/Runtime/Load/Spending.antt =====
-- Handling an envelope costs less than the envelope.
use svitock.Base.{ℕ, ◌+◌, ◌≤◌, ◌≡◌, sym, ap, subst, ◌∙◌, inl, inr, ok, Bool-cases, arith, is_empty}
use svitock.Extern.Queue.{IsFifo}
use svitock.Actor.Payload.{
  ActorType, ActorPayload, SendMessageEvent, session, chat, message, storage, send_message,
}
use svitock.Actor.System.{ActorSystem}
use svitock.Actor.System.Routing.{running-send}
use svitock.Dispatcher.{post}
use svitock.Runtime.{Platform, Stamp, World, handle, handle_chat, handle_message, route_message}
use svitock.Runtime.Provenance.{class_for, handle_session-system, handle_storage-system}
use svitock.Runtime.Load.{cost, cost_positive, load, load-post, load-route_message}

module _ (p : Platform) where
  running-route_message :
      (s : ActorSystem p.queue) (e : SendMessageEvent) → (route_message p s e).running ≡ s.running
  unfolding route_message
  running-route_message s e = elim (Bool-cases (is_empty e.recipient_id)) [
    | inl alone ↦ rw (route_message, alone) (running-send p.queue _ _ ∙ running-send p.queue _ _)
    | inr named ↦
        rw (route_message, named)
          (running-send p.queue _ _ ∙ (running-send p.queue _ _ ∙ running-send p.queue _ _))
  ]

  module _ (fifo : IsFifo p.queue) where
    -- What an actor does with an envelope costs less than the envelope.
    abbrev pub Spends : ActorSystem p.queue → ℕ → ActorSystem p.queue → Type 0
    Spends s n s' = (load p s' + 1 ≤ load p s + n) × (s'.running ≡ s.running)

    same-Spends :
        (s s' : ActorSystem p.queue) (t : ActorType) (payload : ActorPayload p.json.Json)
        → s ≡ s'
        → Spends s (cost t payload) s'
    same-Spends s s' t payload same = (
      subst (λ s'. load p s' + 1 ≤ load p s + cost t payload) same
          (omega (arith, cost_positive t payload)),
      sym (ap (λ s'. s'.running) same),
    )

    pub handle-Spends :
        (stamp : Stamp p) (w : World p) (t : ActorType) (payload : ActorPayload p.json.Json)
        (w' : World p)
        → handle p stamp w (class_for t) payload ≡ ok w'
        → Spends w.system (cost t payload) w'.system
    unfolding handle handle_chat handle_message
    handle-Spends stamp w session payload w' h =
        same-Spends w.system w'.system session payload (handle_session-system p w payload w' h)
    handle-Spends stamp w chat (send_message m) w' h =
        let same : route_message p w.system m ≡ w'.system = ground arith in
        subst (Spends w.system 4) same
          (omega (arith, load-route_message p fifo w.system m), running-route_message w.system m)
    handle-Spends stamp w chat payload w' h =
        same-Spends w.system w'.system chat payload (ground arith)
    handle-Spends stamp w message (send_message m) w' h =
        let same : post p.json p.queue w.system chat (send_message m) ≡ w'.system = ground arith in
        subst (Spends w.system 5) same (
          omega (arith, load-post p fifo w.system chat (send_message m)),
          running-send p.queue w.system _,
        )
    handle-Spends stamp w message payload w' h =
        same-Spends w.system w'.system message payload (ground arith)
    handle-Spends stamp w storage payload w' h =
        same-Spends w.system w'.system storage payload
          (handle_storage-system p stamp w payload w' h)
