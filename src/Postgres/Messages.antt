-- ===== src/Postgres/Messages.antt =====
-- infrastructure/repositories/postgres_message_repository.
pub mod History
pub mod Sent
pub mod Kept
use svitock.Base.{ℕ, suc, Bool, true, List, [], ◌∷◌, Bytes, codes, Outcome, ok, ◌>>=◌}
use svitock.Extern.Postgres.{PostgresLib, text, size}
use svitock.Extern.Uuid.{UuidLib}
use svitock.Domain.{Message}
use svitock.Database.{acquire}
use svitock.Postgres.{Store}
use svitock.Application.Ports.{MessageRepository}

module _ (lib : PostgresLib) (uuid : UuidLib) where
  open lib use {Row, begin, exec_params, commit, abort, field_text}
  open uuid use {Uuid, string_generator, to_string}

  unfoldable pub create : Store lib → Message Uuid → Outcome (Store lib × Bool)
  create s m = do
    acquired ← acquire s.pool
    transaction ← begin s.server acquired.1
    result ←
        exec_params transaction
          (codes
            "INSERT INTO messages (id, chat_id, sender_id, content, created_at) VALUES ($1, $2, $3, $4, NOW())")
          (text (to_string m.id)
            ∷ text (to_string m.chat_id)
            ∷ text (to_string m.sender_id)
            ∷ text m.content
            ∷ [])
    server ← commit result.0
    ok (record { pool = acquired.0; server = server }, true)

  -- One round of the loop.
  unfoldable pub read_message : Row → ℕ → Outcome (Message Uuid)
  read_message row now = do
    id ← field_text row (codes "id") >>= string_generator
    chat_id ← field_text row (codes "chat_id") >>= string_generator
    sender_id ← field_text row (codes "sender_id") >>= string_generator
    content ← field_text row (codes "content")
    ok (record {
      id = id;
      chat_id = chat_id;
      sender_id = sender_id;
      content = content;
      created_at = now;
    })

  -- The loop from a row on; `clock` is the time of each round.
  unfoldable pub read_messages : (ℕ → ℕ) → ℕ → List Row → Outcome (List (Message Uuid))
  unfolding read_message
  read_messages clock i [] = ok []
  read_messages clock i (row ∷ rows) =
      let rest = read_messages clock (suc i) rows in
      read_message row (clock i) >>= λ m. rest >>= λ ms. ok (m ∷ ms)

  unfoldable pub get_by_chat :
      (ℕ → ℕ) → Store lib → Uuid → ℕ → Outcome (Store lib × List (Message Uuid))
  unfolding read_messages
  get_by_chat clock s chat_id limit = do
    acquired ← acquire s.pool
    transaction ← begin s.server acquired.1
    result ←
        exec_params transaction
          (codes
            "SELECT id, chat_id, sender_id, content FROM messages WHERE chat_id = $1 ORDER BY created_at DESC LIMIT $2")
          (text (to_string chat_id) ∷ size limit ∷ [])
    messages ← read_messages clock 0 result.1
    ok (record { pool = acquired.0; server = abort result.0 }, messages)

  abbrev pub postgres_messages : (ℕ → ℕ) → MessageRepository Uuid
  postgres_messages clock = record {
    State = Store lib;
    create = create;
    get_by_chat = get_by_chat clock;
  }
