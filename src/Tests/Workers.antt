-- ===== src/Tests/Workers.antt =====
-- Two workers of a small server, and one alone.
use svitock.Base.{◌≡◌, refl, true, [], ◌∷◌, some, Bytes, codes, arith}
use svitock.Domain.{Message}
use svitock.Actor.Payload.{ActorEnvelope, StoragePersistMessage, storage, persist}
use svitock.Actor.Mailbox.{make_mailbox, push}
use svitock.Actor.System.{storage_actor, make_actor_system, register_actor, send, start}
use svitock.Actor.System.Routing.{queued, class_at}
use svitock.Dispatcher.{post}
use svitock.Runtime.{Platform, World}
use svitock.Runtime.Worker.{server_actors}
use svitock.Runtime.Threads.{Crew, Turns, idle}
use svitock.Runtime.Threads.Overtaking.{IsStored, created_from, overtakes}
use svitock.Tests.Platform.{list_queue-IsFifo, small_platform}
use svitock.Tests.Delivery.{world, stamp}

abbrev p : Platform
p = small_platform

abbrev earlier : StoragePersistMessage
earlier = record { chat_id = codes "uc"; sender_id = codes "ua"; content = codes "one" }

abbrev later : StoragePersistMessage
later = record { chat_id = codes "uc"; sender_id = codes "ua"; content = codes "two" }

abbrev both_wait : World p
both_wait = record world {
  system =
      post p.json p.queue
        (post p.json p.queue (start p.queue (server_actors p 2) 8) storage (persist earlier))
        storage (persist later);
}

abbrev stored_of : StoragePersistMessage → Message Bytes
stored_of l = created_from p l (codes "c") (codes "a") stamp

later-IsStored : IsStored p stamp later [] (stored_of later ∷ [])
later-IsStored = record {
  chat_id = codes "c";
  sender_id = codes "a";
  success = true;
  chat_id_parsed = refl;
  sender_id_parsed = refl;
  created = refl;
}

earlier-IsStored :
    IsStored p stamp earlier (stored_of later ∷ []) (stored_of earlier ∷ stored_of later ∷ [])
earlier-IsStored = record {
  chat_id = codes "c";
  sender_id = codes "a";
  success = true;
  chat_id_parsed = refl;
  sender_id_parsed = refl;
  created = refl;
}

abbrev envelope_of : StoragePersistMessage → ActorEnvelope p.json.Json
envelope_of l = record { destination = storage; payload = persist l }

class_found : class_at p.queue both_wait.system storage ≡ some storage_actor
unfolding start server_actors register_actor make_actor_system make_mailbox send push
class_found = refl

both_queued : queued p.queue both_wait.system storage ≡ envelope_of earlier ∷ envelope_of later ∷ []
unfolding start server_actors register_actor make_actor_system make_mailbox send push
both_queued = refl

eight_workers : both_wait.system.workers ≡ 8
unfolding start server_actors register_actor make_actor_system make_mailbox send push
eight_workers = refl

abbrev Anyone : Bytes → Type 0
Anyone session_id = Unit

overtakes_example :
    (c : Crew p) × Turns p Anyone (idle p both_wait) c
    × (c.world.stored ≡ stored_of earlier ∷ stored_of later ∷ [])
    × (c.hands ≡ [])
    × (queued p.queue c.world.system storage ≡ [])
overtakes_example =
    overtakes p (list_queue-IsFifo _) Anyone both_wait earlier later [] stamp stamp
      (stored_of later ∷ []) (stored_of earlier ∷ stored_of later ∷ [])
      (omega (arith, eight_workers)) class_found both_queued later-IsStored earlier-IsStored
