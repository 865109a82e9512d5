-- ===== src/Actor/System.antt =====
-- core/actor/actor.hpp and core/actor/actor_system: registration, sending, the worker threads.
pub mod Routing
pub mod Waiting
pub mod Lifecycle
use svitock.Base.{ℕ, ◌+◌, ◌≡◌, refl, Bool, true, false, Option, none, some, if◌then◌else◌, arith}
use svitock.Extern.Queue.{QueueLib}
use svitock.Actor.Payload.{ActorType, ActorEnvelope, same_type}
use svitock.Actor.Mailbox.{Mailbox, push}

-- The classes that derive from `Actor`.
pub data ActorClass : Type 0 where
  session_actor chat_actor message_actor storage_actor : ActorClass

pub record Actor {Json : Type 0} (q : QueueLib (ActorEnvelope Json)) : Type 0 where
  pub class : ActorClass
  pub mailbox : Mailbox q

-- `actors_` is the function of its `find`; `workers` is the number of threads in `workers_`.
pub record ActorSystem {Json : Type 0} (q : QueueLib (ActorEnvelope Json)) : Type 0 where
  pub actors : ActorType → Option (Actor q)
  pub workers : ℕ
  pub running : Bool

module _ {Json : Type 0} (q : QueueLib (ActorEnvelope Json)) where
  -- The constructor.
  unfoldable pub make_actor_system : ActorSystem q
  make_actor_system = record { actors = λ t. none; workers = 0; running = false }

  -- `actors_[actorType] = actor`.
  unfoldable pub register_actor : ActorSystem q → ActorType → Actor q → ActorSystem q
  register_actor s t a = record s { actors = λ u. if same_type t u then some a else s.actors u }

  -- The mailbox is shared by pointer: the actor that is found keeps it.
  unfoldable pub send : ActorSystem q → ActorEnvelope Json → ActorSystem q × Bool
  send s envelope = elim (s.actors envelope.destination) [
    | none ↦ (s, false)
    | some actor ↦
        let (mailbox', accepted) = push q actor.mailbox envelope in
        (register_actor s envelope.destination (record actor { mailbox = mailbox' }), accepted)
  ]

  unfoldable pub start : ActorSystem q → ℕ → ActorSystem q
  start s worker_threads =
      if s.running then s else record s { running = true; workers = s.workers + worker_threads }

  -- Every worker leaves its loop once `running_` is false, and is joined.
  unfoldable pub stop : ActorSystem q → ActorSystem q
  stop s = if s.running then record s { running = false; workers = 0 } else s
