-- ===== src/Actor/System/Routing.antt =====
-- Where `send` puts an envelope.
use svitock.Base.{
  ℕ, suc, ◌+◌, ◌≤◌, ◌≡◌, true, ◌&&◌, Option, none, some, List, [], ◌∷◌, ◌++◌, length, arith, inl,
  inr, Option-cases, Bool-cases, length-append, if◌then◌else◌,
}
use mathlib.Core.Option
use svitock.Extern.Queue.{QueueLib, IsFifo}
use svitock.Actor.Payload.{ActorType, ActorEnvelope, same_type, actor_type_hash_injective}
use svitock.Actor.Mailbox.{push}
use svitock.Actor.Mailbox.Laws.{held, push-cases, push-accepted}
use svitock.Actor.System.{ActorSystem, Actor, ActorClass, register_actor, send}

module _ {Json : Type 0} (q : QueueLib (ActorEnvelope Json)) where
  abbrev held_by : Option (Actor q) → List (ActorEnvelope Json)
  held_by none = []
  held_by (some a) = held q a.mailbox

  abbrev class_of : Option (Actor q) → Option ActorClass
  class_of none = none
  class_of (some a) = some a.class

  -- The envelopes that wait for the actor of a type, oldest first.
  abbrev pub queued : ActorSystem q → ActorType → List (ActorEnvelope Json)
  queued s t = held_by (s.actors t)

  abbrev pub class_at : ActorSystem q → ActorType → Option ActorClass
  class_at s t = class_of (s.actors t)

  -- The actor of the type is registered, and its mailbox is open and has room for `n` more.
  abbrev pub RoomFor : ℕ → Option (Actor q) → Type 0
  RoomFor n none = ⊥
  RoomFor n (some a) =
      (a.mailbox.active ≡ true) × (length (held q a.mailbox) + n ≤ q.capacity a.mailbox.queue)

  abbrev pub HasRoom : ActorSystem q → ActorType → ℕ → Type 0
  HasRoom s t n = RoomFor n (s.actors t)

module _ {Json : Type 0} (q : QueueLib (ActorEnvelope Json)) where
  pub running-send :
      (s : ActorSystem q) (e : ActorEnvelope Json) → (send q s e).0.running ≡ s.running
  unfolding send register_actor
  running-send s e = ground (arith, Option-cases (s.actors e.destination))

  pub workers-send :
      (s : ActorSystem q) (e : ActorEnvelope Json) → (send q s e).0.workers ≡ s.workers
  unfolding send register_actor
  workers-send s e = ground (arith, Option-cases (s.actors e.destination))

module _ {Json : Type 0} (q : QueueLib (ActorEnvelope Json)) (fifo : IsFifo q) where
  -- An accepted envelope goes to the end of its destination's mailbox; no other mailbox changes.
  pub queued-send :
      (s : ActorSystem q) (e : ActorEnvelope Json) (t : ActorType)
      → queued q (send q s e).0 t ≡ (
          if same_type e.destination t && (send q s e).1
          then queued q s t ++ e ∷ []
          else queued q s t)
  unfolding send register_actor
  queued-send s e t = elim (Option-cases (s.actors e.destination)) [
    | inl h ↦ ground (arith, h)
    | inr (a, h) ↦
        ground (arith, h, push-cases q fifo a.mailbox e, actor_type_hash_injective e.destination t)
  ]

  pub class_at-send :
      (s : ActorSystem q) (e : ActorEnvelope Json) (t : ActorType)
      → class_at q (send q s e).0 t ≡ class_at q s t
  unfolding send register_actor
  class_at-send s e t = elim (Option-cases (s.actors e.destination)) [
    | inl h ↦ ground (arith, h)
    | inr (a, h) ↦ ground (arith, h, actor_type_hash_injective e.destination t)
  ]

  -- `send` accepts where the destination is registered and its mailbox open and not full.
  pub send-accepted :
      (s : ActorSystem q) (e : ActorEnvelope Json)
      → HasRoom q s e.destination 1
      → (send q s e).1 ≡ true
  unfolding send
  send-accepted s e h = elim (Option-cases (s.actors e.destination)) [
    | inl n ↦ absurd (rw n at h)
    | inr (a, n) ↦
        let room : RoomFor q 1 (some a) = rw n at h in
        rw (n, send) (push-accepted q fifo a.mailbox e room.0 (omega arith))
  ]

  abbrev pushed : ActorEnvelope Json → Actor q → Actor q
  pushed e a = record a { mailbox = (push q a.mailbox e).0 }

  actors-send :
      (s : ActorSystem q) (e : ActorEnvelope Json) (t : ActorType)
      → (send q s e).0.actors t
        ≡ (if same_type e.destination t then Option.map (pushed e) (s.actors t) else s.actors t)
  unfolding send register_actor
  actors-send s e t = elim (Option-cases (s.actors e.destination)) [
    | inl h ↦ ground (arith, h, actor_type_hash_injective e.destination t)
    | inr (a, h) ↦ ground (arith, h, actor_type_hash_injective e.destination t)
  ]

  RoomFor-pushed :
      (e : ActorEnvelope Json) (n : ℕ) (o : Option (Actor q))
      → RoomFor q (suc n) o
      → RoomFor q n (Option.map (pushed e) o)
  RoomFor-pushed e n none h = h
  RoomFor-pushed e n (some a) h =
      ground (arith, push-cases q fifo a.mailbox e, length-append (held q a.mailbox) (e ∷ []))

  -- A send takes one place of its destination's mailbox, and none of another.
  pub HasRoom-send :
      (s : ActorSystem q) (e : ActorEnvelope Json) (t : ActorType) (n : ℕ)
      → HasRoom q s t (if same_type e.destination t then suc n else n)
      → HasRoom q (send q s e).0 t n
  HasRoom-send s e t n h = elim (Bool-cases (same_type e.destination t)) [
    | inl here ↦ rw (actors-send s e t, here) (RoomFor-pushed e n (s.actors t) (rw here at h))
    | inr there ↦ rw (actors-send s e t, there) (rw there at h)
  ]

  -- Where the destination is registered, open and not full, a send is accepted, the envelope goes to
  -- the end of that mailbox, and no other mailbox and no registration changes.
  pub send_lem :
      (s : ActorSystem q) (e : ActorEnvelope Json) (t : ActorType)
      → HasRoom q s e.destination 1
      → ((send q s e).1 ≡ true)
        × (queued q (send q s e).0 t
            ≡ (if same_type e.destination t then queued q s t ++ e ∷ [] else queued q s t))
        × (class_at q (send q s e).0 t ≡ class_at q s t)
  send_lem s e t h =
      let accepted = send-accepted s e h in
      (accepted, ground (arith, queued-send s e t, accepted), class_at-send s e t)
