-- ===== src/Application.antt =====
-- application/use_cases: what the controllers and the old dispatcher execute. A handler's random
-- identifier and the time are arguments.
pub mod Ports
pub mod Accounts
use svitock.Base.{
  ℕ, Bool, true, false, ◌||◌, Option, none, some, List, Bytes, same, is_empty, Outcome, ok, throws,
  ◌>>=◌, if◌then◌else◌,
}
use svitock.Domain.{Message, Chat, ChatType, User}
use svitock.Application.Ports.{MessageRepository, ChatRepository, UserRepository}

module _ {Uuid : Type 0} where
  unfoldable pub send_message :
      (messages : MessageRepository Uuid)
      → messages.State
      → Uuid
      → ℕ
      → Uuid
      → Uuid
      → Bytes
      → Outcome (messages.State × Bool)
  send_message messages s id now chat_id sender_id content =
      if is_empty content
      then ok (s, false)
      else messages.create s (record {
        id = id;
        chat_id = chat_id;
        sender_id = sender_id;
        content = content;
        created_at = now;
      })

  unfoldable pub get_chat_history :
      (messages : MessageRepository Uuid)
      → messages.State
      → Uuid
      → ℕ
      → Outcome (messages.State × List (Message Uuid))
  get_chat_history messages s chat_id limit = messages.get_by_chat s chat_id limit

  unfoldable pub create_chat :
      (chats : ChatRepository Uuid)
      → chats.State
      → Uuid
      → ℕ
      → ChatType
      → Outcome (chats.State × Bool)
  create_chat chats s id now type =
      chats.create s (record { id = id; type = type; created_at = now })

  -- What `RegisterUserUseCase` does with the result of its search.
  unfoldable pub create_if_absent :
      (users : UserRepository Uuid)
      → Uuid
      → ℕ
      → Bytes
      → Bytes
      → users.State
      → Option (User Uuid)
      → Outcome (users.State × Bool)
  create_if_absent users id now username password_hash s (some u) = ok (s, false)
  create_if_absent users id now username password_hash s none =
      users.create s
        (record { id = id; username = username; password_hash = password_hash; created_at = now })

  -- The search and the insertion are two calls of the repository.
  unfoldable pub register_user :
      (users : UserRepository Uuid)
      → users.State
      → Uuid
      → ℕ
      → Bytes
      → Bytes
      → Outcome (users.State × Bool)
  register_user users s id now username password_hash =
      if is_empty username || is_empty password_hash
      then ok (s, false)
      else (users.find_by_username s username >>= λ result.
          create_if_absent users id now username password_hash result.0 result.1)

  unfoldable pub login_user :
      (users : UserRepository Uuid) → users.State → Bytes → Bytes → Outcome (users.State × Bool)
  login_user users s username password_hash = users.find_by_username s username >>= λ (s', found).
      elim found [
        | none ↦ ok (s', false)
        | some user ↦ ok (s', same user.password_hash password_hash)
      ]
