-- ===== src/Presentation.antt =====
-- presentation: the transfer object and the controllers, which execute the use cases. A use case's
-- random identifier and the time are arguments.
pub mod Transfer
pub mod Accounts
use svitock.Base.{ℕ, Bool, List, [], ◌∷◌, Bytes, codes, Outcome, ok, ◌>>=◌}
use svitock.Extern.Json.{JsonLib, fields}
use svitock.Domain.{Message, direct, group}
use svitock.Application.Ports.{MessageRepository, ChatRepository, UserRepository}
use svitock.Application

pub record MessageEventDto (json : JsonLib) : Type 0 where
  pub type : Bytes
  pub chat_id : Bytes
  pub payload : json.Json

module _ (json : JsonLib) where
  open json use {Json, text, at_key, get_text}

  unfoldable pub to_json : MessageEventDto json → Json
  to_json dto = fields json (
      (codes "type", text dto.type)
      ∷ (codes "chat_id", text dto.chat_id)
      ∷ (codes "payload", dto.payload)
      ∷ [])

  -- `get_to` of a JSON value copies it.
  unfoldable pub from_json : Json → Outcome (MessageEventDto json)
  from_json j = do
    type ← at_key j (codes "type") >>= get_text
    chat_id ← at_key j (codes "chat_id") >>= get_text
    payload ← at_key j (codes "payload")
    ok (record { type = type; chat_id = chat_id; payload = payload })

module _ {Uuid : Type 0} where
  -- `AuthController`.
  unfoldable pub register_user_by_password :
      (users : UserRepository Uuid)
      → users.State
      → Uuid
      → ℕ
      → Bytes
      → Bytes
      → Outcome (users.State × Bool)
  register_user_by_password users s id now username password_hash =
      Application.register_user users s id now username password_hash

  unfoldable pub login_user_by_password :
      (users : UserRepository Uuid) → users.State → Bytes → Bytes → Outcome (users.State × Bool)
  login_user_by_password users s username password_hash =
      Application.login_user users s username password_hash

  -- `ChatController`.
  unfoldable pub create_direct_chat :
      (chats : ChatRepository Uuid) → chats.State → Uuid → ℕ → Outcome (chats.State × Bool)
  create_direct_chat chats s id now = Application.create_chat chats s id now direct

  unfoldable pub create_group_chat :
      (chats : ChatRepository Uuid) → chats.State → Uuid → ℕ → Outcome (chats.State × Bool)
  create_group_chat chats s id now = Application.create_chat chats s id now group

  -- `MessageController`.
  unfoldable pub send :
      (messages : MessageRepository Uuid)
      → messages.State
      → Uuid
      → ℕ
      → Uuid
      → Uuid
      → Bytes
      → Outcome (messages.State × Bool)
  send messages s id now chat_id sender_id content =
      Application.send_message messages s id now chat_id sender_id content

  unfoldable pub history :
      (messages : MessageRepository Uuid)
      → messages.State
      → Uuid
      → ℕ
      → Outcome (messages.State × List (Message Uuid))
  history messages s chat_id limit = Application.get_chat_history messages s chat_id limit
