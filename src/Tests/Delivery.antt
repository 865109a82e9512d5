-- ===== src/Tests/Delivery.antt =====
-- One message through a small server.
use svitock.Base.{
  ℕ, ◌≡◌, refl, true, Option, none, some, List, [], ◌∷◌, codes, same, ok, inl, inr, ◌==◌,
  if◌then◌else◌, arith,
}
use svitock.Base.Dict.{lookup}
use svitock.Actor.Payload.{
  ActorType, SendMessageEvent, session, chat, message, storage, send_message,
}
use svitock.Actor.Mailbox.{make_mailbox, push}
use svitock.Actor.System.{make_actor_system, register_actor, send, start}
use svitock.Actor.System.Routing.{queued, HasRoom}
use svitock.Dispatcher.{post}
use svitock.Session.{WebSocketSession, make_session}
use svitock.Runtime.{Platform, Stamp, World, send_to, delivered_event, incoming_event}
use svitock.Runtime.Worker.{server_actors, worker_loop}
use svitock.Runtime.Provenance.{IsServer}
use svitock.Runtime.Pipeline.{Covers, by_type}
use svitock.Runtime.Snapshot.{Snapshot}
use svitock.Runtime.Delivery.{IsDeliverable, stored_message, waiting}
use svitock.Runtime.Delivery.Completion.{worker_loop-delivers}
use svitock.Tests.Json.{write}
use svitock.Tests.Platform.{small_platform, list_queue-IsFifo}

abbrev p : Platform
p = small_platform

abbrev pub hello : SendMessageEvent
hello = record {
  session_id = codes "1";
  chat_id = codes "uc";
  sender_id = codes "ua";
  recipient_id = codes "2";
  text = codes "hi";
}

abbrev alive : ℕ → Option WebSocketSession
alive a =
    if a == 0
    then some (make_session (codes "1"))
    else (if a == 1 then some (make_session (codes "2")) else none)

abbrev pub world : World p
world = record {
  system = start p.queue (post p.json p.queue (server_actors p 2) message (send_message hello)) 8;
  transports = (codes "1", 0) ∷ (codes "2", 1) ∷ [];
  objects = alive;
  stored = [];
}

sender_found : lookup (codes "1") world.transports ≡ some 0
unfolding lookup same
sender_found = refl

recipient_found : lookup (codes "2") world.transports ≡ some 1
unfolding lookup same
recipient_found = refl

abbrev hello-IsDeliverable : IsDeliverable p world hello
hello-IsDeliverable = record {
  chat_id = codes "c";
  sender_id = codes "a";
  chat_id_parsed = refl;
  sender_id_parsed = refl;
  after = λ stamp. (stored_message p hello (codes "c") (codes "a") stamp ∷ [], true);
  created = λ stamp. refl;
  named = refl;
  sender = 0;
  recipient = 1;
  sender_bound = sender_found;
  recipient_bound = recipient_found;
  sender_session = make_session (codes "1");
  recipient_session = make_session (codes "2");
  sender_alive = refl;
  recipient_alive = refl;
  echo = write (delivered_event p hello);
  incoming = write (incoming_event p hello);
  echo_dumped = refl;
  incoming_dumped = refl;
}

abbrev pub stamp : Stamp p
stamp = record { id = codes "m1"; now = 7 }

abbrev pub order : List (ActorType × Stamp p)
order = (storage, stamp) ∷ (session, stamp) ∷ (chat, stamp) ∷ (message, stamp) ∷ []

abbrev pub five_rounds : List (List (ActorType × Stamp p))
five_rounds = order ∷ order ∷ order ∷ order ∷ order ∷ []

pub order-Covers : Covers p order
order-Covers storage = inl refl
order-Covers session = inr (inl refl)
order-Covers chat = inr (inr (inl refl))
order-Covers message = inr (inr (inr (inl refl)))

pub world-IsServer : IsServer p world.system
unfolding start send push server_actors make_mailbox register_actor make_actor_system
world-IsServer session = refl
world-IsServer chat = refl
world-IsServer message = refl
world-IsServer storage = refl

world_waiting :
    (t : ActorType)
    → queued p.queue world.system t
      ≡ by_type [] [] (waiting p hello message (send_message hello)) [] t
unfolding start send push server_actors make_mailbox register_actor make_actor_system
world_waiting session = refl
world_waiting chat = refl
world_waiting message = refl
world_waiting storage = refl

world_spare : (t : ActorType) → HasRoom p.queue world.system t (by_type 2 1 0 1 t)
unfolding start send push server_actors make_mailbox register_actor make_actor_system
world_spare session = (refl, omega arith)
world_spare chat = (refl, omega arith)
world_spare message = (refl, omega arith)
world_spare storage = (refl, omega arith)

world-Snapshot :
    Snapshot p
      (by_type [] [] (waiting p hello message (send_message hello)) [])
      (by_type 2 1 0 1)
      world.system
unfolding start send push server_actors make_mailbox register_actor make_actor_system
world-Snapshot = record {
  running = refl;
  server = world-IsServer;
  waiting = world_waiting;
  spare = world_spare;
}

worker_loop-delivers_example :
    (w' : World p) × (s : Stamp p) × (worker_loop p world five_rounds ≡ ok w')
    × (w'.stored ≡ stored_message p hello (codes "c") (codes "a") s ∷ [])
    × (w'.objects
        ≡ send_to p
            (send_to p alive 0 (write (delivered_event p hello)))
            1
            (write (incoming_event p hello)))
    × (w'.transports ≡ world.transports)
    × ((t : ActorType) → queued p.queue w'.system t ≡ [])
worker_loop-delivers_example =
    worker_loop-delivers p (list_queue-IsFifo _) world hello hello-IsDeliverable five_rounds
      world-Snapshot
      (order-Covers, (order-Covers, (order-Covers, (order-Covers, (order-Covers, tt)))))
      (omega arith)
