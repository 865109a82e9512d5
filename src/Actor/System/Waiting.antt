-- ===== src/Actor/System/Waiting.antt =====
-- Predicates over the envelopes that wait in the mailboxes, under the calls that move envelopes.
use svitock.Base.{
  ℕ, ◌≤◌, ◌≡◌, refl, sym, subst, Bool, true, ◌&&◌, inl, inr, Option, none, some, List, [], ◌∷◌, All,
  All-append, length, if◌then◌else◌, Bool-cases, arith,
}
use svitock.Extern.Queue.{QueueLib, IsFifo, Pops}
use svitock.Actor.Payload.{ActorType, ActorEnvelope, same_type, actor_type_hash_injective}
use svitock.Actor.Mailbox.{pop}
use svitock.Actor.Mailbox.Laws.{held, pop-Pops}
use svitock.Actor.System.{Actor, ActorSystem, register_actor, send}
use svitock.Actor.System.Routing.{queued, class_at, RoomFor, HasRoom, queued-send}

module _ {Json : Type 0} (q : QueueLib (ActorEnvelope Json)) where
  -- The predicate of each mailbox's owner holds of all that waits in it.
  abbrev pub AllWaiting : (ActorType → ActorEnvelope Json → Type 0) → ActorSystem q → Type 0
  AllWaiting Q s = (t : ActorType) → All (Q t) (queued q s t)

  -- The system after the owner of a mailbox took its oldest envelope.
  unfoldable pub take_one : ActorSystem q → ActorType → Actor q → ActorSystem q
  take_one s t actor = register_actor q s t (record actor { mailbox = (pop q actor.mailbox).0 })

module _ {Json : Type 0} (q : QueueLib (ActorEnvelope Json)) where
  pub running-take_one :
      (s : ActorSystem q) (t : ActorType) (actor : Actor q)
      → (take_one q s t actor).running ≡ s.running
  unfolding take_one register_actor
  running-take_one s t actor = refl

pub same_of_and : (a b : ActorType) (c : Bool) → same_type a b && c ≡ true → a ≡ b
same_of_and a b c h = actor_type_hash_injective a b (ground arith)

module _ {Json : Type 0} (q : QueueLib (ActorEnvelope Json)) (fifo : IsFifo q) where
  pub send-AllWaiting :
      (Q : ActorType → ActorEnvelope Json → Type 0) (s : ActorSystem q) (e : ActorEnvelope Json)
      → Q e.destination e
      → AllWaiting q Q s
      → AllWaiting q Q (send q s e).0
  send-AllWaiting Q s e h v t = elim (Bool-cases (same_type e.destination t && (send q s e).1)) [
    | inl here ↦
        rw (queued-send q fifo s e t, here)
          (All-append (Q t) (queued q s t) (e ∷ []) (v t)
            (subst (λ u. Q u e) (same_of_and e.destination t _ here) h, tt))
    | inr there ↦ rw (queued-send q fifo s e t, there) (v t)
  ]

  pub queued-take_one :
      (s : ActorSystem q) (t u : ActorType) (actor : Actor q)
      → queued q (take_one q s t actor) u
        ≡ (if same_type t u then held q (pop q actor.mailbox).0 else queued q s u)
  unfolding take_one register_actor
  queued-take_one s t u actor = ground (arith, actor_type_hash_injective t u)

  pub class_at-take_one :
      (s : ActorSystem q) (t u : ActorType) (actor : Actor q)
      → s.actors t ≡ some actor
      → class_at q (take_one q s t actor) u ≡ class_at q s u
  unfolding take_one register_actor
  class_at-take_one s t u actor h = ground (arith, h, actor_type_hash_injective t u)

  length-Pops :
      (before after : List (ActorEnvelope Json)) (o : Option (ActorEnvelope Json))
      → Pops before o after
      → length after ≤ length before
  length-Pops before after none h = ground (arith, h)
  length-Pops before after (some e) h = ground (arith, h)

  RoomFor-pop :
      (actor : Actor q) (n : ℕ)
      → RoomFor q n (some actor)
      → RoomFor q n (some (record actor { mailbox = (pop q actor.mailbox).0 }))
  unfolding pop
  RoomFor-pop actor n h =
      let shorter =
        length-Pops (held q actor.mailbox) (held q (pop q actor.mailbox).0) (pop q actor.mailbox).1
          (pop-Pops q fifo actor.mailbox) in
      (h.0, rw (fifo.capacity-pop actor.mailbox.queue) (omega (arith, h.1, shorter)))

  -- A mailbox that gives out an envelope keeps its room, and so does every other.
  pub HasRoom-take_one :
      (s : ActorSystem q) (t u : ActorType) (actor : Actor q) (n : ℕ)
      → s.actors t ≡ some actor
      → HasRoom q s u n
      → HasRoom q (take_one q s t actor) u n
  unfolding take_one register_actor
  HasRoom-take_one s t u actor n found h = elim (Bool-cases (same_type t u)) [
    | inl here ↦
        let same_place = actor_type_hash_injective t u (ground arith) in
        let own : RoomFor q n (some actor) =
          subst (RoomFor q n) found (subst (λ w. HasRoom q s w n) (sym same_place) h) in
        rw (take_one, here) (RoomFor-pop actor n own)
    | inr there ↦ rw (take_one, there) h
  ]

  -- What is left after a mailbox gave out `o`.
  after_pop :
      (Q : ActorType → ActorEnvelope Json → Type 0) (s : ActorSystem q) (t : ActorType)
      (actor : Actor q)
      → All (Q t) (held q (pop q actor.mailbox).0)
      → AllWaiting q Q s
      → AllWaiting q Q (take_one q s t actor)
  after_pop Q s t actor h v u = elim (Bool-cases (same_type t u)) [
    | inl here ↦
        rw (queued-take_one s t u actor, here)
          (subst (λ w. All (Q w) (held q (pop q actor.mailbox).0))
            (actor_type_hash_injective t u (ground arith)) h)
    | inr there ↦ rw (queued-take_one s t u actor, there) (v u)
  ]

  pub take_one-none :
      (Q : ActorType → ActorEnvelope Json → Type 0) (s : ActorSystem q) (t : ActorType)
      (actor : Actor q)
      → s.actors t ≡ some actor
      → (pop q actor.mailbox).1 ≡ none
      → AllWaiting q Q s
      → (queued q s t ≡ []) × AllWaiting q Q (take_one q s t actor)
  take_one-none Q s t actor found empty v =
      let (before, after) = rw empty at (pop-Pops q fifo actor.mailbox) in
      (rw found before, after_pop Q s t actor (rw after tt) v)

  pub take_one-some :
      (Q : ActorType → ActorEnvelope Json → Type 0) (s : ActorSystem q) (t : ActorType)
      (actor : Actor q) (e : ActorEnvelope Json)
      → s.actors t ≡ some actor
      → (pop q actor.mailbox).1 ≡ some e
      → AllWaiting q Q s
      → Q t e × AllWaiting q Q (take_one q s t actor)
  take_one-some Q s t actor e found popped v =
      let before : queued q s t ≡ e ∷ held q (pop q actor.mailbox).0 =
        rw found (rw popped at (pop-Pops q fifo actor.mailbox)) in
      let both : All (Q t) (e ∷ held q (pop q actor.mailbox).0) = rw before at (v t) in
      (both.0, after_pop Q s t actor both.1 v)
