-- ===== src/Tests/Threads.antt =====
-- Several workers at concrete inputs.
use svitock.Base.{◌≡◌, refl, true, [], ◌∷◌, some, Bytes, codes, ok, arith}
use svitock.Actor.Payload.{ActorEnvelope, message, send_message}
use svitock.Actor.Mailbox.{make_mailbox, push, pop}
use svitock.Actor.System.{
  Actor, ActorSystem, message_actor, storage_actor, make_actor_system, register_actor, send, start,
}
use svitock.Actor.System
use svitock.Dispatcher.{post, dispatch}
use svitock.Dispatcher.Laws.{dispatch-client_message}
use svitock.Runtime.{Platform, World, handle, handle_message}
use svitock.Runtime.Worker.{server_actors}
use svitock.Runtime.Threads.{
  Turns, dispatches, starts, takes, finishes, first, then_turn, idle, taken,
}
use svitock.Tests.Json.{small_json, small_json-IsJson}
use svitock.Tests.Order.{database_platform, fresh, hello, hello_text, hello_reads, stamp}

abbrev p : Platform
p = database_platform

abbrev started : World p
started = record fresh { system = System.start p.queue fresh.system 2 }

abbrev posted : ActorSystem p.queue
posted = post p.json p.queue started.system message (send_message hello)

abbrev envelope : ActorEnvelope p.json.Json
envelope = record { destination = message; payload = send_message hello }

abbrev message_holder : Actor p.queue
message_holder = record {
  class = message_actor;
  mailbox = record { queue = (envelope ∷ [], 2); active = true; leaked = [] };
}

abbrev w1 : World p
w1 = record started { system = posted }

abbrev w2 : World p
w2 = taken p w1 message message_holder

abbrev w3 : World p
w3 = record w2 { system = handle_message p w2.system (send_message hello) }

posted_dispatched : dispatch p.json p.queue started.system (codes "1") hello_text ≡ ok posted
posted_dispatched =
    dispatch-client_message small_json small_json-IsJson p.queue started.system hello hello_text
      hello_reads

holder_found : w1.system.actors message ≡ some message_holder
unfolding start server_actors register_actor make_actor_system make_mailbox send push
holder_found = refl

holder_pops : (pop p.queue message_holder.mailbox).1 ≡ some envelope
unfolding pop
holder_pops = refl

two_workers : w1.system.workers ≡ 2
unfolding start server_actors register_actor make_actor_system make_mailbox send push
two_workers = refl

handled : handle p stamp w2 message_actor (send_message hello) ≡ ok w3
unfolding handle
handled = refl

abbrev Connected : Bytes → Type 0
Connected session_id = session_id ≡ codes "1"

abbrev run : Turns p Connected (idle p fresh) (idle p w3)
run =
    then_turn
      (then_turn
        (then_turn (then_turn first (starts 2))
          (dispatches (codes "1") hello_text posted refl posted_dispatched))
        (takes message message_holder envelope (omega (arith, two_workers)) holder_found
          holder_pops))
      (finishes stamp [] [] message_actor (send_message hello) w3 refl handled)
