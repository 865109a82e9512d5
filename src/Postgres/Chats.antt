-- ===== src/Postgres/Chats.antt =====
-- infrastructure/repositories/postgres_chat_repository.
pub mod Found
use svitock.Base.{
  ℕ, ◌%◌, ◌==◌, Bool, true, Option, none, some, List, [], ◌∷◌, codes, Outcome, ok, ◌>>=◌,
  if◌then◌else◌,
}
use svitock.Extern.Postgres.{PostgresLib, text, int32}
use svitock.Extern.Uuid.{UuidLib}
use svitock.Domain.{Chat, ChatType, direct, group, unnamed}
use svitock.Database.{acquire}
use svitock.Postgres.{Store}
use svitock.Application.Ports.{ChatRepository}

-- `static_cast<std::int32_t>(type)` and `static_cast<ChatType>(n)`; the enumeration has 8 bits.
unfoldable pub number_of_type : ChatType → ℕ
number_of_type direct = 0
number_of_type group = 1
number_of_type (unnamed n) = n

unfoldable pub type_of_number : ℕ → ChatType
type_of_number n =
    if n % 256 == 0 then direct else (if n % 256 == 1 then group else unnamed (n % 256))

module _ (lib : PostgresLib) (uuid : UuidLib) where
  open lib use {Row, begin, exec_params, commit, abort, field_text, field_int32}
  open uuid use {Uuid, string_generator, to_string}

  unfoldable pub create : Store lib → Chat Uuid → Outcome (Store lib × Bool)
  unfolding number_of_type
  create s chat = do
    acquired ← acquire s.pool
    transaction ← begin s.server acquired.1
    result ←
        exec_params transaction
          (codes "INSERT INTO chats (id, type, created_at) VALUES ($1, $2, NOW())")
          (text (to_string chat.id) ∷ int32 (number_of_type chat.type) ∷ [])
    server ← commit result.0
    ok (record { pool = acquired.0; server = server }, true)

  -- What follows the search: the first row of the result, if there is one.
  unfoldable pub first_chat : ℕ → List Row → Outcome (Option (Chat Uuid))
  unfolding type_of_number
  first_chat now [] = ok none
  first_chat now (row ∷ rows) = do
    id ← field_text row (codes "id") >>= string_generator
    type ← field_int32 row (codes "type")
    ok (some (record { id = id; type = type_of_number type; created_at = now }))

  unfoldable pub find_by_id : ℕ → Store lib → Uuid → Outcome (Store lib × Option (Chat Uuid))
  unfolding first_chat
  find_by_id now s id = do
    acquired ← acquire s.pool
    transaction ← begin s.server acquired.1
    result ←
        exec_params transaction (codes "SELECT id, type FROM chats WHERE id = $1")
          (text (to_string id) ∷ [])
    chat ← first_chat now result.1
    ok (record { pool = acquired.0; server = abort result.0 }, chat)

  abbrev pub postgres_chats : ℕ → ChatRepository Uuid
  postgres_chats now = record { State = Store lib; create = create; find_by_id = find_by_id now }
