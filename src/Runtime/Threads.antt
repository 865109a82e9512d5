-- ===== src/Runtime/Threads.antt =====
-- core/actor/actor_system.cpp, `workerLoop` on several threads: between `pop` and `handle` a worker
-- holds an envelope, and other threads go on. A call of a handler is one step.
pub mod Copies
pub mod Census
pub mod Sound
pub mod Overtaking
use svitock.Base.{ℕ, ◌<◌, ◌≡◌, none, some, List, [], ◌∷◌, ◌++◌, length, Bytes, Option, ok}
use svitock.Actor.Payload.{ActorType, ActorPayload, ActorEnvelope}
use svitock.Actor.Mailbox.{pop}
use svitock.Actor.System.{Actor, ActorClass, ActorSystem}
use svitock.Actor.System.Waiting.{take_one}
use svitock.Actor.System
use svitock.Dispatcher.{dispatch}
use svitock.Session.{WebSocketSession, Transports}
use svitock.Runtime.{Platform, Stamp, World, handle}

module _ (p : Platform) where
  -- An envelope that a worker has taken, with the actor whose handler it calls.
  abbrev pub Hand : Type 0
  Hand = ActorClass × ActorPayload p.json.Json

  -- `hands` are the envelopes that workers hold: a worker holds one at most.
  pub record Crew : Type 0 where
    pub world : World p
    pub hands : List Hand

  -- The state in which no worker holds an envelope.
  abbrev pub idle : World p → Crew
  idle w = record { world = w; hands = [] }

  abbrev pub taken : World p → ActorType → Actor p.queue → World p
  taken w t actor = record w { system = take_one p.queue w.system t actor }

  -- One step of a thread, while no exception ends the process.
  pub data Turn (Connected : Bytes → Type 0) (c : Crew) : Crew → Type 0 where
    dispatches :
        (session_id raw_message : Bytes) (s : ActorSystem p.queue)
        → Connected session_id
        → dispatch p.json p.queue c.world.system session_id raw_message ≡ ok s
        → Turn Connected c (record c { world = record c.world { system = s } })
    connects :
        (transports : Transports) (objects : ℕ → Option WebSocketSession)
        → Turn Connected c
            (record c { world = record c.world { transports = transports; objects = objects } })
    -- The server starts its workers, or has stopped and joined them.
    starts :
        (worker_threads : ℕ)
        → Turn Connected c (record c {
          world = record c.world { system = System.start p.queue c.world.system worker_threads };
        })
    stops :
        c.hands ≡ []
        → Turn Connected c
            (record c { world = record c.world { system = System.stop p.queue c.world.system } })
    -- A worker whose hands are empty pops an envelope.
    takes :
        (t : ActorType) (actor : Actor p.queue) (e : ActorEnvelope p.json.Json)
        → length c.hands < c.world.system.workers
        → c.world.system.actors t ≡ some actor
        → (pop p.queue actor.mailbox).1 ≡ some e
        → Turn Connected c (record {
          world = taken c.world t actor;
          hands = c.hands ++ (actor.class, e.payload) ∷ [];
        })
    takes_nothing :
        (t : ActorType) (actor : Actor p.queue)
        → c.world.system.actors t ≡ some actor
        → (pop p.queue actor.mailbox).1 ≡ none
        → Turn Connected c (record c { world = taken c.world t actor })
    -- One of the workers handles what it holds.
    finishes :
        (stamp : Stamp p) (before after : List Hand) (class : ActorClass)
        (payload : ActorPayload p.json.Json) (w' : World p)
        → c.hands ≡ before ++ (class, payload) ∷ after
        → handle p stamp c.world class payload ≡ ok w'
        → Turn Connected c (record { world = w'; hands = before ++ after })

  pub data Turns (Connected : Bytes → Type 0) (c : Crew) : Crew → Type 0 where
    first : Turns Connected c c
    then_turn : {d e : Crew} → Turns Connected c d → Turn Connected d e → Turns Connected c e
