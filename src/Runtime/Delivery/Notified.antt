-- ===== src/Runtime/Delivery/Notified.antt =====
-- The visits at which the echo and the text are given to their sessions.
use svitock.Base.{ℕ, ◌≡◌, refl, ap, inl, inr, Option, some, Bytes, ok, Bool-cases, ◌==◌}
use svitock.Base.Dict.{lookup}
use svitock.Extern.Queue.{IsFifo}
use svitock.Actor.Payload.{SendMessageEvent, SessionOutgoingEvent, session}
use svitock.Session.{WebSocketSession}
use svitock.Session
use svitock.Runtime.{Platform, Stamp, World, handle_session, deliver, handle, send_to}
use svitock.Runtime.Pipeline.{none_sent, echo_sent, both_sent, fanned}
use svitock.Runtime.Delivery.{echo_payload, incoming_payload, IsDeliverable, waits_of, HasReached}
use svitock.Runtime.Delivery.Simulation.{Visits, works}

module _ (p : Platform) (fifo : IsFifo p.queue) (w : World p) (e : SendMessageEvent)
    (d : IsDeliverable p w e) where
  send_to-alive :
      (objects : ℕ → Option WebSocketSession) (address a : ℕ) (payload : Bytes)
      (transport : WebSocketSession)
      → objects a ≡ some transport
      → (transport' : WebSocketSession) × (send_to p objects address payload a ≡ some transport')
  unfolding send_to
  send_to-alive objects address a payload transport h = elim (Bool-cases (a == address)) [
    | inl here ↦ (Session.send transport payload, rw (send_to, here, h) refl)
    | inr there ↦ (transport, rw (send_to, there) h)
  ]

  deliver_lem :
      (v : World p) (o : SessionOutgoingEvent p.json.Json) (address : ℕ)
      (transport : WebSocketSession) (payload : Bytes)
      → lookup o.session_id v.transports ≡ some address
      → v.objects address ≡ some transport
      → p.json.dump o.payload ≡ ok payload
      → deliver p v o ≡ ok (record v { objects = send_to p v.objects address payload })
  unfolding deliver
  deliver_lem v o address transport payload h k l = rw (deliver, h, k, l) refl

  pub visit-echo :
      (o : Option (Stamp p)) (stamp : Stamp p) (v : World p)
      → HasReached p w e d (fanned o none_sent) v
      → Visits p fifo w e d (fanned o echo_sent) stamp v session
  unfolding handle handle_session
  visit-echo o stamp v r =
      works p fifo w e d (fanned o none_sent) (fanned o echo_sent)
        (waits_of p e (fanned o echo_sent)) stamp v session
        (record { destination = session; payload = echo_payload p e }) r refl
        (refl, refl, refl, refl)
        λ s snapshot. (
          record v { system = s; objects = send_to p v.objects d.sender d.echo },
          deliver_lem (record v { system = s }) _ d.sender d.sender_session d.echo
              (rw r.transports d.sender_bound) (rw r.objects d.sender_alive) d.echo_dumped,
          record {
            snapshot = snapshot;
            transports = r.transports;
            objects = ap (λ f. send_to p f d.sender d.echo) r.objects;
            stored = r.stored;
          },
        )

  pub visit-incoming :
      (o : Option (Stamp p)) (stamp : Stamp p) (v : World p)
      → HasReached p w e d (fanned o echo_sent) v
      → Visits p fifo w e d (fanned o both_sent) stamp v session
  unfolding handle handle_session
  visit-incoming o stamp v r =
      let (transport, alive) =
        send_to-alive w.objects d.sender d.recipient d.echo d.recipient_session d.recipient_alive in
      works p fifo w e d (fanned o echo_sent) (fanned o both_sent)
        (waits_of p e (fanned o both_sent)) stamp v session
        (record { destination = session; payload = incoming_payload p e }) r refl
        (refl, refl, refl, refl)
        λ s snapshot. (
          record v { system = s; objects = send_to p v.objects d.recipient d.incoming },
          deliver_lem (record v { system = s }) _ d.recipient transport d.incoming
              (rw r.transports d.recipient_bound) (rw r.objects alive) d.incoming_dumped,
          record {
            snapshot = snapshot;
            transports = r.transports;
            objects = ap (λ f. send_to p f d.recipient d.incoming) r.objects;
            stored = r.stored;
          },
        )
