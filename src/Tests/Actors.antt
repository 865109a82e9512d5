-- ===== src/Tests/Actors.antt =====
-- The mailboxes and the actors at concrete inputs.
use svitock.Base.{
  ℕ, ◌≡◌, refl, Bool, true, false, List, [], ◌∷◌, none, Bytes, Outcome, throws, codes, same, find,
  ok, arith,
}
use svitock.Extern.Queue.{QueueLib}
use svitock.Actor.Payload.{ActorEnvelope, SendMessageEvent, session, message, auth, send_message}
use svitock.Actor.Mailbox.{Mailbox, destroy, push, make_mailbox}
use svitock.Actor.Mailbox.Laws.{held, destroy-empty}
use svitock.Actor.Mailbox.Fifo.{IsQueue, pushes, pops, calls, start, calls-start-IsQueue}
use svitock.Actor.System.{ActorSystem, make_actor_system, register_actor}
use svitock.Actor.System.Lifecycle.{Request, starts, stops, requests}
use svitock.Actor.System.Routing.{HasRoom}
use svitock.Dispatcher.{post, dispatch}
use svitock.Actor.Payload.{AuthEvent}
use svitock.Extern.Json.{fields}
use svitock.Dispatcher.Requests.{send_each, logs_in, dispatch-Asks}
use svitock.Dispatcher.Laws.{client_message, dispatch-client_message}
use svitock.Runtime.{Platform, Stamp, World}
use svitock.Runtime.Worker.{server_actors, visit}
use svitock.Tests.Json.{Value, small_json, small_json-IsJson, read_json}
use svitock.Tests.Platform.{list_queue, list_queue-IsFifo, small_platform}

abbrev q : QueueLib ℕ
q = list_queue ℕ

-- A mailbox for two envelopes gets three: the third is refused and leaked.
calls-start-IsQueue_example :
    IsQueue q (calls q (start q 2) (pushes 7 ∷ pushes 8 ∷ pushes 9 ∷ pops ∷ []))
calls-start-IsQueue_example =
    calls-start-IsQueue q (list_queue-IsFifo ℕ) 2 (pushes 7 ∷ pushes 8 ∷ pushes 9 ∷ pops ∷ [])

abbrev holding_two : Mailbox q
holding_two = record { queue = (7 ∷ 8 ∷ [], 2); active = true; leaked = 9 ∷ [] }

destroy-empty_example :
    (held q (destroy q 3 holding_two) ≡ [])
    × (push q (destroy q 3 holding_two) 5 ≡ (destroy q 3 holding_two, false))
destroy-empty_example = destroy-empty q (list_queue-IsFifo ℕ) 3 holding_two 5 (omega arith)

abbrev pub p : Platform
p = small_platform

abbrev actors : ActorSystem p.queue
actors = server_actors p 2

abbrev login_envelope : ActorEnvelope Value
login_envelope = record {
  destination = session;
  payload = auth (record { session_id = codes "1"; user_id = codes "ann" });
}

room : HasRoom p.queue actors session 1
unfolding server_actors register_actor make_actor_system make_mailbox
room = (refl, omega arith)

abbrev twice : List Request
twice = starts ∷ starts ∷ stops ∷ starts ∷ []

abbrev after_twice : ActorSystem p.queue
after_twice = requests p.queue 8 (make_actor_system p.queue) twice

abbrev pub hello : SendMessageEvent
hello = record {
  session_id = codes "1";
  chat_id = codes "uc";
  sender_id = codes "ua";
  recipient_id = codes "2";
  text = codes "hi";
}

abbrev pub hello_text : Bytes
hello_text =
    codes
      "{\"type\":\"send_message\",\"chat_id\":\"uc\",\"sender_id\":\"ua\",\"recipient_session_id\":\"2\",\"payload\":{\"text\":\"hi\"}}"

hello_reads : read_json hello_text ≡ ok (client_message small_json hello)
unfolding read_json same find
hello_reads = refl

abbrev pub posted : ActorSystem p.queue
posted = post p.json p.queue actors message (send_message hello)

pub hello_dispatched : dispatch p.json p.queue actors (codes "1") hello_text ≡ ok posted
hello_dispatched =
    dispatch-client_message small_json small_json-IsJson p.queue actors hello hello_text hello_reads

abbrev login : AuthEvent
login = record { session_id = codes "1"; user_id = codes "ann" }

abbrev login_text : Bytes
login_text = codes "{\"type\":\"auth\",\"user_id\":\"ann\"}"

login_reads :
    read_json login_text
    ≡ ok (
        fields small_json (
          (codes "type", small_json.text (codes "auth"))
          ∷ (codes "user_id", small_json.text (codes "ann"))
          ∷ []))
unfolding read_json same find
login_reads = refl

dispatch-Asks_example :
    dispatch p.json p.queue actors (codes "1") login_text
    ≡ ok (send_each p.json p.queue actors (login_envelope ∷ []))
dispatch-Asks_example =
    dispatch-Asks small_json small_json-IsJson p.queue actors (codes "1") login_text
      (login_envelope ∷ []) (logs_in login refl login_reads)

abbrev pub fresh : World p
fresh = record { system = actors; transports = []; objects = λ a. none; stored = [] }

abbrev Connected : Bytes → Type 0
Connected session_id = session_id ≡ codes "1"

abbrev pub stamp : Stamp p
stamp = record { id = codes "m1"; now = 7 }

-- The text of a session is dispatched, and a worker visits the actors that it goes through.

abbrev pub world_of : Outcome (World p × Bool) → World p
world_of (ok (w, processed)) = w
world_of (throws e) = fresh

abbrev dispatched : World p
dispatched = record fresh { system = posted }

abbrev routed : World p
routed = world_of (visit p stamp dispatched message)
