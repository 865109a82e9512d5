-- ===== src/Runtime/Delivery.antt =====
-- The way of one chat message through the actors, in the states of the server.
pub mod Simulation
pub mod Notified
pub mod Rounds
pub mod Completion
use svitock.Base.{
  ℕ, ◌≡◌, true, false, Bool, Option, none, some, List, [], ◌∷◌, Bytes, Outcome, ok, is_empty,
}
use svitock.Base.Dict.{lookup}
use svitock.Actor.Payload.{
  ActorType, ActorPayload, ActorEnvelope, SendMessageEvent, session, chat, message, storage,
  send_message, persist, outgoing,
}
use svitock.Domain.{Message}
use svitock.Session.{WebSocketSession}
use svitock.Runtime.{Platform, Stamp, World, delivered_event, incoming_event, send_to}
use svitock.Runtime.Pipeline.{
  Notices, none_sent, echo_sent, both_sent, Stage, at_message, at_chat, fanned, by_type,
}
use svitock.Runtime.Snapshot.{Snapshot}

module _ (p : Platform) where
  -- What `StorageActor` stores of a message, at a stamp.
  abbrev pub stored_message :
      SendMessageEvent → p.uuid.Uuid → p.uuid.Uuid → Stamp p → Message p.uuid.Uuid
  stored_message e chat_id sender_id stamp = record {
    id = stamp.id;
    chat_id = chat_id;
    sender_id = sender_id;
    content = e.text;
    created_at = stamp.now;
  }

  -- A message whose identifiers are UUIDs, that the repository takes, whose notices are UTF-8, and
  -- that goes from a session that is alive to a session that is alive.
  pub record IsDeliverable (w : World p) (e : SendMessageEvent) : Type 0 where
    pub chat_id : p.uuid.Uuid
    pub sender_id : p.uuid.Uuid
    pub chat_id_parsed : p.uuid.string_generator e.chat_id ≡ ok chat_id
    pub sender_id_parsed : p.uuid.string_generator e.sender_id ≡ ok sender_id
    pub after : Stamp p → p.messages.State × Bool
    pub created :
        (stamp : Stamp p)
        → p.messages.create w.stored (stored_message e chat_id sender_id stamp) ≡ ok (after stamp)
    pub named : is_empty e.recipient_id ≡ false
    pub sender : ℕ
    pub recipient : ℕ
    pub sender_bound : lookup e.session_id w.transports ≡ some sender
    pub recipient_bound : lookup e.recipient_id w.transports ≡ some recipient
    pub sender_session : WebSocketSession
    pub recipient_session : WebSocketSession
    pub sender_alive : w.objects sender ≡ some sender_session
    pub recipient_alive : w.objects recipient ≡ some recipient_session
    pub echo : Bytes
    pub incoming : Bytes
    pub echo_dumped : p.json.dump (delivered_event p e) ≡ ok echo
    pub incoming_dumped : p.json.dump (incoming_event p e) ≡ ok incoming

module _ (p : Platform) (e : SendMessageEvent) where
  abbrev pub waiting : ActorType → ActorPayload p.json.Json → List (ActorEnvelope p.json.Json)
  waiting t payload = record { destination = t; payload = payload } ∷ []

  abbrev pub store_payload : ActorPayload p.json.Json
  store_payload =
      persist (record { chat_id = e.chat_id; sender_id = e.sender_id; content = e.text })

  abbrev pub echo_payload : ActorPayload p.json.Json
  echo_payload = outgoing (record { session_id = e.session_id; payload = delivered_event p e })

  abbrev pub incoming_payload : ActorPayload p.json.Json
  incoming_payload = outgoing (record { session_id = e.recipient_id; payload = incoming_event p e })

  abbrev pub persisting : Option (Stamp p) → List (ActorEnvelope p.json.Json)
  persisting none = waiting storage store_payload
  persisting (some stamp) = []

  abbrev notifying : Notices → List (ActorEnvelope p.json.Json)
  notifying none_sent =
      record { destination = session; payload = echo_payload } ∷ waiting session incoming_payload
  notifying echo_sent = waiting session incoming_payload
  notifying both_sent = []

  -- What waits for each actor at a stage.
  abbrev pub waits_of : Stage p → ActorType → List (ActorEnvelope p.json.Json)
  waits_of at_message = by_type [] [] (waiting message (send_message e)) []
  waits_of at_chat = by_type [] (waiting chat (send_message e)) [] []
  waits_of (fanned o k) = by_type (notifying k) [] [] (persisting o)

  -- The room that the mailboxes still need from a stage on.
  abbrev pub room_of : Stage p → ActorType → ℕ
  room_of at_message = by_type 2 1 0 1
  room_of at_chat = by_type 2 0 0 1
  room_of (fanned o k) = by_type 0 0 0 0

module _ (p : Platform) (w : World p) (e : SendMessageEvent) (d : IsDeliverable p w e) where
  abbrev written : Option (Stamp p) → p.messages.State
  written none = w.stored
  written (some stamp) = (d.after stamp).0

  abbrev pub stored_of : Stage p → p.messages.State
  stored_of (fanned o k) = written o
  stored_of _ = w.stored

  abbrev pub sent : Notices → ℕ → Option WebSocketSession
  sent none_sent = w.objects
  sent echo_sent = send_to p w.objects d.sender d.echo
  sent both_sent = send_to p (send_to p w.objects d.sender d.echo) d.recipient d.incoming

  abbrev pub objects_of : Stage p → ℕ → Option WebSocketSession
  objects_of (fanned o k) = sent k
  objects_of _ = w.objects

  -- The state of the server at a stage, for the message `e` sent when its state was `w`.
  pub record HasReached (st : Stage p) (v : World p) : Type 0 where
    pub snapshot : Snapshot p (waits_of p e st) (room_of p e st) v.system
    pub transports : v.transports ≡ w.transports
    pub objects : v.objects ≡ objects_of st
    pub stored : v.stored ≡ stored_of st
