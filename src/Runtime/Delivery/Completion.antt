-- ===== src/Runtime/Delivery/Completion.antt =====
-- A message that a client sends is stored, and arrives at both sessions.
use svitock.Base.{◌≤◌, ◌≡◌, refl, subst, ◌∙◌, some, List, [], ◌∷◌, All, length, ok}
use svitock.Extern.Queue.{IsFifo}
use svitock.Actor.Payload.{
  ActorType, SendMessageEvent, session, chat, message, storage, send_message,
}
use svitock.Actor.System.Routing.{queued}
use svitock.Runtime.{Platform, Stamp, World, send_to}
use svitock.Runtime.Worker.{worker_loop}
use svitock.Runtime.Pipeline.{Stage, at_message, fanned, both_sent, by_type, advances, Covers}
use svitock.Runtime.Pipeline.Progress.{after_rounds, remaining-after_rounds, remaining-none}
use svitock.Runtime.Snapshot.{Snapshot}
use svitock.Runtime.Delivery.{IsDeliverable, waiting, HasReached}
use svitock.Runtime.Delivery.Rounds.{round-HasReached}

nothing_waits : {A : Type 0} (t : ActorType) → by_type {A = List A} [] [] [] [] t ≡ []
nothing_waits session = refl
nothing_waits chat = refl
nothing_waits message = refl
nothing_waits storage = refl

module _ (p : Platform) (fifo : IsFifo p.queue) (w : World p) (e : SendMessageEvent)
    (d : IsDeliverable p w e) where
  worker_loop-HasReached :
      (rounds : List (List (ActorType × Stamp p))) (st : Stage p) (v : World p)
      → HasReached p w e d st v
      → (v' : World p) × (worker_loop p v rounds ≡ ok v')
        × HasReached p w e d (after_rounds p st rounds) v'
  unfolding worker_loop
  worker_loop-HasReached [] st v r = (v, refl, r)
  worker_loop-HasReached (order ∷ rounds) st v r =
      let (v', processed, done, r') = round-HasReached p fifo w e d order st v r in
      let (v'', later, r'') = worker_loop-HasReached rounds (advances p st order) v' r' in
      (v'', rw (worker_loop, done, later, r.snapshot.running) refl, r'')

  -- Where a message that can be delivered waits for the message actor of a running server, nothing
  -- else waits, and the mailboxes have room for two notices, the message and its record: any five
  -- or more rounds, each of which visits every actor, in any order and any number of times, return;
  -- then the message is stored, with the stamp of one visit, the echo is written to the sender's
  -- session and after it the text to the recipient's, the other sessions are as they were, and no
  -- mailbox holds anything.
  pub worker_loop-delivers :
      (rounds : List (List (ActorType × Stamp p)))
      → Snapshot p
          (by_type [] [] (waiting p e message (send_message e)) [])
          (by_type 2 1 0 1)
          w.system
      → All (Covers p) rounds
      → 5 ≤ length rounds
      → (w' : World p) × (stamp : Stamp p) × (worker_loop p w rounds ≡ ok w')
        × (w'.stored ≡ (d.after stamp).0)
        × (w'.objects ≡ send_to p (send_to p w.objects d.sender d.echo) d.recipient d.incoming)
        × (w'.transports ≡ w.transports)
        × ((t : ActorType) → queued p.queue w'.system t ≡ [])
  worker_loop-delivers rounds snapshot covers enough =
      let start : HasReached p w e d at_message w = record {
        snapshot = snapshot;
        transports = refl;
        objects = refl;
        stored = refl;
      } in
      let (w', done, reached) = worker_loop-HasReached rounds at_message w start in
      let (stamp, stage) =
        remaining-none p (after_rounds p at_message rounds)
          (remaining-after_rounds p rounds at_message covers enough) in
      let final : HasReached p w e d (fanned (some stamp) both_sent) w' =
        subst (λ st. HasReached p w e d st w') stage reached in
      (
        w',
        stamp,
        done,
        final.stored,
        final.objects,
        final.transports,
        λ t. final.snapshot.waiting t ∙ nothing_waits t,
      )
