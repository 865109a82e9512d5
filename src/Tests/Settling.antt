-- ===== src/Tests/Settling.antt =====
-- A message through a small server, until nothing is left to do.
use svitock.Base.{ok, ◌≡◌, refl, true, arith, codes}
use svitock.Actor.Payload.{session, chat, message, storage}
use svitock.Actor.Mailbox.{make_mailbox, push}
use svitock.Actor.System.{make_actor_system, register_actor, send, start}
use svitock.Runtime.{Platform, World, delivered_event, incoming_event}
use svitock.Runtime.Worker.{server_actors, worker_loop}
use svitock.Runtime.Provenance.{AllGenuine}
use svitock.Runtime.Load.{load}
use svitock.Runtime.Settling.Quiet.{IsQuiet}
use svitock.Runtime.Settling.Returning.{IsReadable, worker_loop-settles}
use svitock.Tests.Json.{write}
use svitock.Tests.Platform.{small_platform, list_queue-IsFifo}
use svitock.Tests.Delivery.{hello, world, five_rounds, order-Covers, world-IsServer}

abbrev p : Platform
p = small_platform

world-AllGenuine : AllGenuine p (λ e. e ≡ hello) world.system
unfolding start send push server_actors make_mailbox register_actor make_actor_system
world-AllGenuine session = tt
world-AllGenuine chat = tt
world-AllGenuine message = (refl, tt)
world-AllGenuine storage = tt

world-load : load p world.system ≡ 5
unfolding start send push server_actors make_mailbox register_actor make_actor_system
world-load = refl

world_runs : world.system.running ≡ true
unfolding start send push server_actors make_mailbox register_actor make_actor_system
world_runs = refl

hello-IsReadable : IsReadable p hello
hello-IsReadable = record {
  chat_id_parsed = (codes "c", refl);
  sender_id_parsed = (codes "a", refl);
  echo_dumped = (write (delivered_event p hello), refl);
  incoming_dumped = (write (incoming_event p hello), refl);
}

world-AllGenuine-IsReadable : AllGenuine p (IsReadable p) world.system
unfolding start send push server_actors make_mailbox register_actor make_actor_system
world-AllGenuine-IsReadable session = tt
world-AllGenuine-IsReadable chat = tt
world-AllGenuine-IsReadable message = (hello-IsReadable, tt)
world-AllGenuine-IsReadable storage = tt

worker_loop-settles_example :
    (w' : World p) × (worker_loop p world five_rounds ≡ ok w') × IsQuiet p w'.system
worker_loop-settles_example =
    worker_loop-settles p (λ s m. (_, refl)) (list_queue-IsFifo _) five_rounds world
      (record { server = world-IsServer; genuine = world-AllGenuine-IsReadable }) world_runs
      (order-Covers, (order-Covers, (order-Covers, (order-Covers, (order-Covers, tt)))))
      (omega (arith, world-load))
