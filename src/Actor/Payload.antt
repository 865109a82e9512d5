-- ===== src/Actor/Payload.antt =====
-- core/actor/actor_message.hpp, over the type of JSON values.
use svitock.Base.{ℕ, ◌≡◌, Bool, ◌==◌, Bytes, arith}

-- `enum class ActorType : std::uint8_t`.
pub data ActorType : Type 0 where
  session chat message storage : ActorType

pub record AuthEvent : Type 0 where
  pub session_id : Bytes
  pub user_id : Bytes

pub record SendMessageEvent : Type 0 where
  pub session_id : Bytes
  pub chat_id : Bytes
  pub sender_id : Bytes
  pub recipient_id : Bytes
  pub text : Bytes

pub record TypingEvent : Type 0 where
  pub chat_id : Bytes
  pub user_id : Bytes

pub record ReadEvent : Type 0 where
  pub chat_id : Bytes
  pub user_id : Bytes
  pub message_id : Bytes

pub record StoragePersistMessage : Type 0 where
  pub chat_id : Bytes
  pub sender_id : Bytes
  pub content : Bytes

pub record SessionOutgoingEvent (Json : Type 0) : Type 0 where
  pub session_id : Bytes
  pub payload : Json

-- The variant.
pub data ActorPayload (Json : Type 0) : Type 0 where
  auth : AuthEvent → ActorPayload Json
  send_message : SendMessageEvent → ActorPayload Json
  typing : TypingEvent → ActorPayload Json
  read : ReadEvent → ActorPayload Json
  persist : StoragePersistMessage → ActorPayload Json
  outgoing : SessionOutgoingEvent Json → ActorPayload Json

pub record ActorEnvelope (Json : Type 0) : Type 0 where
  pub destination : ActorType
  pub payload : ActorPayload Json

-- `ActorTypeHash`: the enumerator's number, by which `actors_` finds an entry.
abbrev pub actor_type_hash : ActorType → ℕ
actor_type_hash session = 0
actor_type_hash chat = 1
actor_type_hash message = 2
actor_type_hash storage = 3

abbrev pub same_type : ActorType → ActorType → Bool
same_type a b = actor_type_hash a == actor_type_hash b

pub actor_type_hash_injective : (a b : ActorType) → actor_type_hash a ≡ actor_type_hash b → a ≡ b
actor_type_hash_injective a b h = ground arith
