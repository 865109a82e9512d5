-- ===== src/Runtime/Threads/Sound.antt =====
-- What the threads hold and what waits for them comes from the clients, however they interleave.
use svitock.Base.{
  ℕ, ◌≡◌, sym, subst, List, [], ◌∷◌, ◌++◌, Bytes, some, ok, All, All-append, All-remove, Ensures-ok,
}
use svitock.Extern.Queue.{IsFifo}
use svitock.Actor.Payload.{ActorType, ActorPayload, ActorEnvelope, SendMessageEvent}
use svitock.Actor.Mailbox.{pop}
use svitock.Actor.System.{Actor, ActorClass, ActorSystem}
use svitock.Actor.System.Lifecycle.{actors-start, actors-stop}
use svitock.Actor.System.Waiting.{take_one-none, take_one-some}
use svitock.Dispatcher.{dispatch}
use svitock.Runtime.{Platform, Stamp, World, handle}
use svitock.Runtime.Worker.{server_actors}
use svitock.Runtime.Provenance.{
  class_for, IsGenuine, IsSound, handle-IsSound, take_one-IsServer, class_at_found,
}
use svitock.Runtime.Reachable.{FromClient, dispatch-IsSound, server_actors-IsSound}
use svitock.Runtime.Threads.{
  Hand, Crew, Turn, Turns, dispatches, connects, starts, stops, takes, takes_nothing, finishes,
  first, then_turn, idle, taken,
}

module _ (p : Platform) (P : SendMessageEvent → Type 0) where
  -- What a worker holds is for the actor whose handler it calls.
  abbrev pub InHand : Hand p → Type 0
  InHand (class, payload) = (t : ActorType) × (class ≡ class_for t) × IsGenuine p P t payload

  pub record IsSoundCrew (c : Crew p) : Type 0 where
    pub system : IsSound p P c.world.system
    pub hands : All InHand c.hands

  actors-IsSound :
      (s s' : ActorSystem p.queue) → s.actors ≡ s'.actors → IsSound p P s → IsSound p P s'
  actors-IsSound s s' same v =
      let same_running : IsSound p P (record s { workers = s'.workers; running = s'.running }) =
        record { server = v.server; genuine = v.genuine } in
      subst (λ actors. IsSound p P (record s' { actors = actors })) same same_running

  module _ (fifo : IsFifo p.queue) where
    take-IsSound :
        (w : World p) (t : ActorType) (actor : Actor p.queue) (e : ActorEnvelope p.json.Json)
        → w.system.actors t ≡ some actor
        → (pop p.queue actor.mailbox).1 ≡ some e
        → IsSound p P w.system
        → IsGenuine p P t e.payload × IsSound p P (taken p w t actor).system
    take-IsSound w t actor e found popped v =
        let (g, rest) =
          take_one-some p.queue fifo (λ u e. IsGenuine p P u e.payload) w.system t actor e found
            popped v.genuine in
        (g, record { server = take_one-IsServer p fifo P w.system t actor found v; genuine = rest })

    finishes-IsSoundCrew :
        (c : Crew p) (stamp : Stamp p) (before after : List (Hand p)) (class : ActorClass)
        (payload : ActorPayload p.json.Json) (w' : World p)
        → c.hands ≡ before ++ (class, payload) ∷ after
        → handle p stamp c.world class payload ≡ ok w'
        → IsSoundCrew c
        → IsSoundCrew (record { world = w'; hands = before ++ after })
    finishes-IsSoundCrew c stamp before after class payload w' held handled v =
        let ((t, same_class, g), rest) =
          All-remove InHand before (class, payload) after (subst (All InHand) held v.hands) in
        record {
          system =
              handle-IsSound p fifo P stamp c.world t payload w' g v.system
                (subst (λ class. handle p stamp c.world class payload ≡ ok w') same_class handled);
          hands = rest;
        }

module _ (p : Platform) (fifo : IsFifo p.queue) (Connected : Bytes → Type 0) where
  pub Turn-IsSoundCrew :
      {c c' : Crew p}
      → Turn p Connected c c'
      → IsSoundCrew p (FromClient p fifo Connected) c
      → IsSoundCrew p (FromClient p fifo Connected) c'
  Turn-IsSoundCrew {c} (dispatches session_id raw s known e) v = record {
    system =
        Ensures-ok (IsSound p (FromClient p fifo Connected))
          (dispatch p.json p.queue c.world.system session_id raw) s
          (dispatch-IsSound p fifo (FromClient p fifo Connected) c.world.system session_id raw
            (λ e' same_id. subst Connected (sym same_id) known) v.system)
          e;
    hands = v.hands;
  }
  Turn-IsSoundCrew (connects transports objects) v = record { system = v.system; hands = v.hands }
  Turn-IsSoundCrew {c} (starts worker_threads) v = record {
    system =
        actors-IsSound p (FromClient p fifo Connected) c.world.system _
          (actors-start p.queue c.world.system worker_threads) v.system;
    hands = v.hands;
  }
  Turn-IsSoundCrew {c} (stops idle) v = record {
    system =
        actors-IsSound p (FromClient p fifo Connected) c.world.system _
          (actors-stop p.queue c.world.system) v.system;
    hands = v.hands;
  }
  Turn-IsSoundCrew {c} (takes t actor e free found popped) v =
      let P = FromClient p fifo Connected in
      let (g, sound) = take-IsSound p P fifo c.world t actor e found popped v.system in
      record {
        system = sound;
        hands =
            All-append (InHand p P) c.hands ((actor.class, e.payload) ∷ []) v.hands
              ((t, class_at_found p fifo P c.world.system t actor found v.system, g), tt);
      }
  Turn-IsSoundCrew {c} (takes_nothing t actor found empty) v =
      let P = FromClient p fifo Connected in
      record {
        system = record {
          server = take_one-IsServer p fifo P c.world.system t actor found v.system;
          genuine =
              (take_one-none p.queue fifo (λ u e. IsGenuine p P u e.payload) c.world.system t actor
                found empty v.system.genuine).1;
        };
        hands = v.hands;
      }
  Turn-IsSoundCrew {c} (finishes stamp before after class payload w' held handled) v =
      finishes-IsSoundCrew p (FromClient p fifo Connected) fifo c stamp before after class payload
        w' held handled v

  pub Turns-IsSoundCrew :
      {c c' : Crew p}
      → Turns p Connected c c'
      → IsSoundCrew p (FromClient p fifo Connected) c
      → IsSoundCrew p (FromClient p fifo Connected) c'
  Turns-IsSoundCrew first v = v
  Turns-IsSoundCrew (then_turn r turn) v = Turn-IsSoundCrew turn (Turns-IsSoundCrew r v)

  pub server_actors-IsSoundCrew :
      (capacity : ℕ) (w : World p)
      → w.system ≡ server_actors p capacity
      → IsSoundCrew p (FromClient p fifo Connected) (idle p w)
  server_actors-IsSoundCrew capacity w new_server = record {
    system =
        subst (IsSound p (FromClient p fifo Connected)) (sym new_server)
          (server_actors-IsSound p fifo Connected capacity);
    hands = tt;
  }
