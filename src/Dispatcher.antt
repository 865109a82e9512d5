-- ===== src/Dispatcher.antt =====
-- infrastructure/dispatcher/message_dispatcher: from the text of a WebSocket message to an envelope
-- for an actor. Log lines are left out.
pub mod Laws
pub mod Requests
use svitock.Base.{[], ok, throws, ◌>>=◌, Bytes, codes, same, Outcome, if◌then◌else◌}
use svitock.Extern.Json.{JsonLib, parse_quietly}
use svitock.Extern.Queue.{QueueLib}
use svitock.Actor.Payload.{ActorType, ActorPayload, ActorEnvelope, auth, send_message, typing, read}
use svitock.Actor.System.{ActorSystem, send}

module _ (json : JsonLib) (q : QueueLib (ActorEnvelope json.Json)) where
  open json use {Json, is_object, value_text, value, object}

  abbrev envelope : ActorType → ActorPayload Json → ActorEnvelope Json
  envelope t payload = record { destination = t; payload = payload }

  -- `(void)actorSystem_.send(...)`: the result is dropped.
  abbrev pub post : ActorSystem q → ActorType → ActorPayload Json → ActorSystem q
  post s t payload = (send q s (envelope t payload)).0

  unfoldable pub dispatch_auth : ActorSystem q → Bytes → Json → Outcome (ActorSystem q)
  dispatch_auth s session_id j = do
    user_id ← value_text j (codes "user_id") []
    ok (post s ActorType.session (auth (record { session_id = session_id; user_id = user_id })))

  unfoldable pub dispatch_send_message : ActorSystem q → Bytes → Json → Outcome (ActorSystem q)
  dispatch_send_message s session_id j = do
    payload ← value j (codes "payload") object
    chat_id ← value_text j (codes "chat_id") []
    sender_id ← value_text j (codes "sender_id") []
    recipient_id ← value_text j (codes "recipient_session_id") []
    text ← value_text payload (codes "text") []
    ok (
        post s ActorType.message (
          send_message (record {
            session_id = session_id;
            chat_id = chat_id;
            sender_id = sender_id;
            recipient_id = recipient_id;
            text = text;
          })))

  unfoldable pub dispatch_typing : ActorSystem q → Json → Outcome (ActorSystem q)
  dispatch_typing s j = do
    chat_id ← value_text j (codes "chat_id") []
    user_id ← value_text j (codes "user_id") []
    ok (post s ActorType.message (typing (record { chat_id = chat_id; user_id = user_id })))

  unfoldable pub dispatch_read : ActorSystem q → Json → Outcome (ActorSystem q)
  dispatch_read s j = do
    chat_id ← value_text j (codes "chat_id") []
    user_id ← value_text j (codes "user_id") []
    message_id ← value_text j (codes "message_id") []
    ok (
        post s ActorType.message
          (read (record { chat_id = chat_id; user_id = user_id; message_id = message_id })))

  -- The tests of `type`, in the order of the source.
  unfoldable pub dispatch_type : ActorSystem q → Bytes → Json → Bytes → Outcome (ActorSystem q)
  dispatch_type s session_id j type =
      if same type (codes "auth")
      then dispatch_auth s session_id j
      else (if same type (codes "send_message")
          then dispatch_send_message s session_id j
          else (if same type (codes "typing")
              then dispatch_typing s j
              else (if same type (codes "message_read") then dispatch_read s j else ok s)))

  unfoldable pub dispatch_json : ActorSystem q → Bytes → Json → Outcome (ActorSystem q)
  dispatch_json s session_id j =
      if is_object j
      then (do type ← value_text j (codes "type") []; dispatch_type s session_id j type)
      else ok s

  unfoldable pub dispatch : ActorSystem q → Bytes → Bytes → Outcome (ActorSystem q)
  dispatch s session_id raw_message = dispatch_json s session_id (parse_quietly json raw_message)
