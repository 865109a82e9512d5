-- ===== src/Runtime.antt =====
-- infrastructure/actors and the loop of core/actor/actor_system: the four actors over the state that
-- they share.
pub mod Worker
pub mod Provenance
pub mod Start
pub mod Snapshot
pub mod Reachable
pub mod Reading
pub mod Life
pub mod Pipeline
pub mod Delivery
pub mod Load
pub mod Settling
pub mod Letters
pub mod Sent
pub mod Threads
use svitock.Base.{
  ℕ, ◌==◌, Bool, true, false, not, ◌||◌, Option, none, some, List, [], ◌∷◌, Bytes, codes, is_empty,
  Outcome, ok, throws, ◌>>=◌, if◌then◌else◌,
}
use svitock.Base.Dict.{lookup}
use svitock.Extern.Json.{JsonLib, fields}
use svitock.Extern.Uuid.{UuidLib}
use svitock.Extern.Queue.{QueueLib}
use svitock.Domain.{Message}
use svitock.Application.Ports.{MessageRepository}
use svitock.Actor.Payload.{
  ActorType, ActorPayload, ActorEnvelope, SendMessageEvent, StoragePersistMessage,
  SessionOutgoingEvent, auth, send_message, typing, read, persist, outgoing,
}
use svitock.Actor.Mailbox.{Mailbox, pop, make_mailbox}
use svitock.Actor.System.{
  Actor, ActorClass, ActorSystem, session_actor, chat_actor, message_actor, storage_actor,
  make_actor_system, register_actor, send,
}
use svitock.Session.{WebSocketSession, Transports}
use svitock.Session
use svitock.Dispatcher.{post}

-- The libraries and the repository that the server is built over.
pub record Platform : Type 1 where
  pub json : JsonLib
  pub uuid : UuidLib
  pub queue : QueueLib (ActorEnvelope json.Json)
  pub messages : MessageRepository uuid.Uuid

-- A random identifier and the time, as a handler draws them.
pub record Stamp (p : Platform) : Type 0 where
  pub id : p.uuid.Uuid
  pub now : ℕ

-- `objects` are the sessions that are alive, by address: what `lock` of a weak pointer finds.
pub record World (p : Platform) : Type 0 where
  pub system : ActorSystem p.queue
  pub transports : Transports
  pub objects : ℕ → Option WebSocketSession
  pub stored : p.messages.State

module _ (p : Platform) where
  open p use {json, uuid, queue, messages}
  open json use {Json, text, dump}
  open uuid use {string_generator}

  abbrev pub Payload : Type 0
  Payload = ActorPayload Json

  unfoldable pub delivered_event : SendMessageEvent → Json
  delivered_event e = fields json (
      (codes "type", text (codes "message_delivered"))
      ∷ (codes "chat_id", text e.chat_id)
      ∷ (codes "payload", fields json ((codes "text", text e.text) ∷ []))
      ∷ [])

  unfoldable pub incoming_event : SendMessageEvent → Json
  incoming_event e = fields json (
      (codes "type", text (codes "incoming_message"))
      ∷ (codes "chat_id", text e.chat_id)
      ∷ (
        codes "payload",
        fields json ((codes "text", text e.text) ∷ (codes "from", text e.sender_id) ∷ []),
      )
      ∷ [])

  -- `ChatActor::handle` of a `SendMessageEvent`.
  unfoldable pub route_message : ActorSystem queue → SendMessageEvent → ActorSystem queue
  route_message s e =
      let s' =
        post json queue s ActorType.storage
          (persist (record { chat_id = e.chat_id; sender_id = e.sender_id; content = e.text })) in
      let s'' =
        post json queue s' ActorType.session
          (outgoing (record { session_id = e.session_id; payload = delivered_event e })) in
      if is_empty e.recipient_id
      then s''
      else post json queue s'' ActorType.session
          (outgoing (record { session_id = e.recipient_id; payload = incoming_event e }))

  unfoldable pub handle_chat : ActorSystem queue → Payload → ActorSystem queue
  handle_chat s (send_message e) = route_message s e
  handle_chat s _ = s

  unfoldable pub handle_message : ActorSystem queue → Payload → ActorSystem queue
  handle_message s (send_message e) = post json queue s ActorType.chat (send_message e)
  handle_message s _ = s

  -- `it->second.lock()` and `transport->send(...)`.
  unfoldable pub send_to : (ℕ → Option WebSocketSession) → ℕ → Bytes → ℕ → Option WebSocketSession
  send_to objects address payload a =
      if a == address
      then elim (objects a) [ none ↦ none | some transport ↦ some (Session.send transport payload) ]
      else objects a

  -- `SessionActor::handle` of a `SessionOutgoingEvent`.
  unfoldable pub deliver : World p → SessionOutgoingEvent Json → Outcome (World p)
  deliver w e = elim (lookup e.session_id w.transports) [
    | none ↦ ok w
    | some address ↦ elim (w.objects address) [
      | none ↦ ok w
      | some transport ↦ do
        payload ← dump e.payload
        ok (record w { objects = send_to w.objects address payload })
    ]
  ]

  unfoldable pub handle_session : World p → Payload → Outcome (World p)
  handle_session w (outgoing e) = deliver w e
  handle_session w _ = ok w

  -- `StorageActor::handle` of a `StoragePersistMessage`; whether it was stored is only logged.
  unfoldable pub store_message : Stamp p → World p → StoragePersistMessage → Outcome (World p)
  store_message stamp w e = do
    chat_id ← string_generator e.chat_id
    sender_id ← string_generator e.sender_id
    result ← messages.create w.stored (record {
      id = stamp.id;
      chat_id = chat_id;
      sender_id = sender_id;
      content = e.content;
      created_at = stamp.now;
    })
    ok (record w { stored = result.0 })

  unfoldable pub handle_storage : Stamp p → World p → Payload → Outcome (World p)
  handle_storage stamp w (persist e) = store_message stamp w e
  handle_storage stamp w _ = ok w

  -- The virtual call `actor->handle`.
  unfoldable pub handle : Stamp p → World p → ActorClass → Payload → Outcome (World p)
  handle stamp w session_actor payload = handle_session w payload
  handle stamp w chat_actor payload = ok (record w { system = handle_chat w.system payload })
  handle stamp w message_actor payload = ok (record w { system = handle_message w.system payload })
  handle stamp w storage_actor payload = handle_storage stamp w payload
