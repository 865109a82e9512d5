-- ===== src/Runtime/Snapshot.antt =====
-- One step of a worker and one post, seen through what waits in the mailboxes.
use svitock.Base.{
  ℕ, suc, ◌≤◌, ◌≡◌, refl, ◌∙◌, true, false, inl, inr, Option, none, some, List, [], ◌∷◌, ◌++◌, ok,
  ◌>>=◌, Option-cases, if◌then◌else◌, arith,
}
use svitock.Extern.Queue.{IsFifo}
use svitock.Actor.Payload.{
  ActorType, ActorPayload, ActorEnvelope, same_type, actor_type_hash_injective,
}
use svitock.Actor.Mailbox.{pop}
use svitock.Actor.Mailbox.Laws.{held, pop-Pops}
use svitock.Actor.System.{Actor, ActorSystem}
use svitock.Actor.System.Routing.{
  queued, RoomFor, HasRoom, HasRoom-send, class_at-send, running-send, send_lem,
}
use svitock.Actor.System.Waiting.{
  take_one, queued-take_one, class_at-take_one, HasRoom-take_one, running-take_one,
}
use svitock.Dispatcher.{post}
use svitock.Runtime.{Platform, Stamp, World, handle}
use svitock.Runtime.Worker.{visit, visit-busy, visit-idle}
use svitock.Runtime.Provenance.{class_for, IsServer}

module _ (p : Platform) where
  -- A server in which `waits t` waits for the actor of type `t`, with room for `room t` more.
  pub record Snapshot (waits : ActorType → List (ActorEnvelope p.json.Json)) (room : ActorType → ℕ)
      (s : ActorSystem p.queue) : Type 0 where
    pub running : s.running ≡ true
    pub server : IsServer p s
    pub waiting : (t : ActorType) → queued p.queue s t ≡ waits t
    pub spare : (t : ActorType) → HasRoom p.queue s t (room t)

module _ (p : Platform) (fifo : IsFifo p.queue) where
  RoomFor-mono :
      (m n : ℕ) (o : Option (Actor p.queue)) → m ≤ n → RoomFor p.queue n o → RoomFor p.queue m o
  RoomFor-mono m n none h k = k
  RoomFor-mono m n (some a) h k = (k.0, omega arith)

  pub post-Snapshot :
      (waits waits' : ActorType → List (ActorEnvelope p.json.Json)) (room room' : ActorType → ℕ)
      (s : ActorSystem p.queue) (t : ActorType) (payload : ActorPayload p.json.Json)
      → Snapshot p waits room s
      → 1 ≤ room t
      → ((u : ActorType) → room u ≡ (if same_type t u then suc (room' u) else room' u))
      → ((u : ActorType)
          → waits' u ≡ (
              if same_type t u
              then waits u ++ record { destination = t; payload = payload } ∷ []
              else waits u))
      → Snapshot p waits' room' (post p.json p.queue s t payload)
  post-Snapshot waits waits' room room' s t payload v h r k =
      let e : ActorEnvelope p.json.Json = record { destination = t; payload = payload } in
      let one = RoomFor-mono 1 (room t) (s.actors t) h (v.spare t) in
      record {
        running = running-send p.queue s e ∙ v.running;
        server = λ u. class_at-send p.queue fifo s e u ∙ v.server u;
        waiting = λ u. ground (arith, send_lem p.queue fifo s e u one, v.waiting u, k u);
        spare = λ u. HasRoom-send p.queue fifo s e u (room' u) (rw (← r u) (v.spare u));
      }

  pub registered :
      (s : ActorSystem p.queue) (t : ActorType)
      → IsServer p s
      → (actor : Actor p.queue) × (s.actors t ≡ some actor) × (actor.class ≡ class_for t)
  registered s t v = elim (Option-cases (s.actors t)) [
    | inl missing ↦ absurd (ground (arith, missing, v t))
    | inr (actor, found) ↦ (actor, found, ground (arith, v t))
  ]

  pub oldest :
      (actor : Actor p.queue) (e : ActorEnvelope p.json.Json)
      (rest : List (ActorEnvelope p.json.Json))
      → held p.queue actor.mailbox ≡ e ∷ rest
      → ((pop p.queue actor.mailbox).1 ≡ some e)
        × (held p.queue (pop p.queue actor.mailbox).0 ≡ rest)
  oldest actor e rest h = elim (Option-cases (pop p.queue actor.mailbox).1) [
    | inl empty ↦
        let both = rw empty at (pop-Pops p.queue fifo actor.mailbox) in
        absurd (ground (arith, both.0, h))
    | inr (e', popped) ↦
        let first = rw popped at (pop-Pops p.queue fifo actor.mailbox) in
        ground (arith, popped, first, h)
  ]

  nothing :
      (actor : Actor p.queue)
      → held p.queue actor.mailbox ≡ []
      → ((pop p.queue actor.mailbox).1 ≡ none) × (held p.queue (pop p.queue actor.mailbox).0 ≡ [])
  nothing actor h = elim (Option-cases (pop p.queue actor.mailbox).1) [
    | inl empty ↦ let both = rw empty at (pop-Pops p.queue fifo actor.mailbox) in (empty, both.1)
    | inr (e', popped) ↦
        let first = rw popped at (pop-Pops p.queue fifo actor.mailbox) in
        absurd (ground (arith, first, h))
  ]

  -- A worker's step at a mailbox in which something waits.
  pub visit-Snapshot :
      (waits waits' : ActorType → List (ActorEnvelope p.json.Json)) (room : ActorType → ℕ)
      (stamp : Stamp p) (w : World p) (t : ActorType) (e : ActorEnvelope p.json.Json)
      → Snapshot p waits room w.system
      → waits t ≡ e ∷ waits' t
      → ((u : ActorType) → waits' u ≡ (if same_type t u then waits' t else waits u))
      → (s : ActorSystem p.queue) × Snapshot p waits' room s
        × (visit p stamp w t ≡ (
            handle p stamp (record w { system = s }) (class_for t) e.payload >>= λ w'.
            ok (w', true)))
  visit-Snapshot waits waits' room stamp w t e v h k =
      let (actor, found, class) = registered w.system t v.server in
      let waiting : held p.queue actor.mailbox ≡ e ∷ waits' t = rw found at (v.waiting t) ∙ h in
      let (popped, rest) = oldest actor e (waits' t) waiting in
      let s = take_one p.queue w.system t actor in
      (
        s,
        record {
          running = running-take_one p.queue w.system t actor ∙ v.running;
          server = λ u. class_at-take_one p.queue fifo w.system t u actor found ∙ v.server u;
          waiting = λ u.
              rw (queued-take_one p.queue fifo w.system t u actor, rest, v.waiting u, k u) refl;
          spare = λ u. HasRoom-take_one p.queue fifo w.system t u actor (room u) found (v.spare u);
        },
        rw (visit-busy p stamp w t actor e found popped, class) refl,
      )

  -- A worker's step at an empty mailbox.
  pub visit-Snapshot-idle :
      (waits : ActorType → List (ActorEnvelope p.json.Json)) (room : ActorType → ℕ)
      (stamp : Stamp p) (w : World p) (t : ActorType)
      → Snapshot p waits room w.system
      → waits t ≡ []
      → (s : ActorSystem p.queue) × Snapshot p waits room s
        × (visit p stamp w t ≡ ok (record w { system = s }, false))
  visit-Snapshot-idle waits room stamp w t v h =
      let (actor, found, class) = registered w.system t v.server in
      let waiting : held p.queue actor.mailbox ≡ [] = rw found at (v.waiting t) ∙ h in
      let (popped, rest) = nothing actor waiting in
      (
        take_one p.queue w.system t actor,
        record {
          running = running-take_one p.queue w.system t actor ∙ v.running;
          server = λ u. class_at-take_one p.queue fifo w.system t u actor found ∙ v.server u;
          waiting = λ u. ground (
            arith,
            queued-take_one p.queue fifo w.system t u actor,
            rest,
            v.waiting u,
            h,
            actor_type_hash_injective t u,
          );
          spare = λ u. HasRoom-take_one p.queue fifo w.system t u actor (room u) found (v.spare u);
        },
        visit-idle p stamp w t actor found popped,
      )
