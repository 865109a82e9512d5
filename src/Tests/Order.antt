-- ===== src/Tests/Order.antt =====
-- Two messages through a small server over a small database, one handler after the other.
use svitock.Base.{
  ◌≡◌, refl, true, [], map, none, Bool, Bytes, codes, same, find, Outcome, ok, throws,
}
use svitock.Base.Dict.{lookup}
use svitock.Extern.Postgres.{insert_into, select_recent, select_where}
use svitock.Database.{acquire}
use svitock.Actor.Payload.{SendMessageEvent, chat, message, storage, send_message}
use svitock.Actor.Mailbox.{make_mailbox, push, pop}
use svitock.Actor.System.{ActorSystem, make_actor_system, register_actor, send}
use svitock.Dispatcher.{post, dispatch}
use svitock.Dispatcher.Laws.{client_message, dispatch-client_message}
use svitock.Postgres.Messages.{create, postgres_messages}
use svitock.Postgres.Messages.Kept.{postgres_messages-KeepsMessages}
use svitock.Runtime.{
  Platform, Stamp, World, handle, handle_chat, handle_message, handle_storage, store_message,
  route_message,
}
use svitock.Runtime.Worker.{server_actors, visit}
use svitock.Runtime.Reachable.{Reach, here, next, dispatches, visits}
use svitock.Runtime.Letters.{letter_of}
use svitock.Runtime.Letters.Order.{asked, IsInOrder, server_actors-IsInOrder}
use svitock.Tests.Json.{small_json, small_json-IsJson, read_json}
use svitock.Tests.Platform.{list_queue, list_queue-IsFifo, small_uuid}
use svitock.Tests.Tables.{table_server}
use svitock.Tests.Answers.{table_server-IsPostgres}
use svitock.Tests.Postgres.{clock, store, empty_tables}

abbrev pub database_platform : Platform
database_platform = record {
  json = small_json;
  uuid = small_uuid;
  queue = list_queue _;
  messages = postgres_messages table_server small_uuid clock;
}

abbrev p : Platform
p = database_platform

abbrev pub hello : SendMessageEvent
hello = record {
  session_id = codes "1";
  chat_id = codes "uc";
  sender_id = codes "ua";
  recipient_id = codes "2";
  text = codes "hi";
}

abbrev pub hello_text : Bytes
hello_text =
    codes
      "{\"type\":\"send_message\",\"chat_id\":\"uc\",\"sender_id\":\"ua\",\"recipient_session_id\":\"2\",\"payload\":{\"text\":\"hi\"}}"

pub hello_reads : read_json hello_text ≡ ok (client_message small_json hello)
unfolding read_json same find
hello_reads = refl

abbrev pub fresh : World p
fresh = record {
  system = server_actors p 2;
  transports = [];
  objects = λ a. none;
  stored = store 0 empty_tables;
}

abbrev pub posted : ActorSystem p.queue
posted = post p.json p.queue fresh.system message (send_message hello)

pub hello_dispatched : dispatch p.json p.queue fresh.system (codes "1") hello_text ≡ ok posted
hello_dispatched =
    dispatch-client_message small_json small_json-IsJson p.queue fresh.system hello hello_text
      hello_reads

abbrev pub stamp : Stamp p
stamp = record { id = codes "m1"; now = 7 }

abbrev world_of : Outcome (World p × Bool) → World p
world_of (ok (w, processed)) = w
world_of (throws e) = fresh

abbrev w1 : World p
w1 = record fresh { system = posted }

abbrev w2 : World p
w2 = world_of (visit p stamp w1 message)

abbrev w3 : World p
w3 = world_of (visit p stamp w2 chat)

abbrev w4 : World p
w4 = world_of (visit p stamp w3 storage)

visit_message : visit p stamp w1 message ≡ ok (w2, true)
unfolding visit server_actors register_actor make_actor_system make_mailbox send push pop handle
    handle_message
visit_message = refl

visit_chat : visit p stamp w2 chat ≡ ok (w3, true)
unfolding visit server_actors register_actor make_actor_system make_mailbox send push pop handle
    handle_message handle_chat route_message
visit_chat = refl

visit_storage : visit p stamp w3 storage ≡ ok (w4, true)
unfolding visit server_actors register_actor make_actor_system make_mailbox send push pop handle
    handle_message handle_chat route_message handle_storage store_message create acquire lookup
    insert_into select_recent select_where same
visit_storage = refl

abbrev Connected : Bytes → Type 0
Connected session_id = session_id ≡ codes "1"

abbrev run : Reach p Connected fresh w4
run =
    next
      (next
        (next (next here (dispatches (codes "1") hello_text posted refl hello_dispatched))
          (visits stamp message true w2 visit_message))
        (visits stamp chat true w3 visit_chat))
      (visits stamp storage true w4 visit_storage)

server_actors-IsInOrder_example :
    IsInOrder p
      (postgres_messages-KeepsMessages table_server small_uuid table_server-IsPostgres clock)
      []
      (map letter_of (asked p Connected run))
      w4
server_actors-IsInOrder_example =
    server_actors-IsInOrder p
      (postgres_messages-KeepsMessages table_server small_uuid table_server-IsPostgres clock)
      (list_queue-IsFifo _) Connected 2 fresh w4 [] refl refl run
