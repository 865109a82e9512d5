-- ===== src/Postgres/Users.antt =====
-- infrastructure/repositories/postgres_user_repository.
pub mod Registered
use svitock.Base.{
  ℕ, Bool, true, Option, none, some, List, [], ◌∷◌, Bytes, codes, Outcome, ok, ◌>>=◌,
}
use svitock.Extern.Postgres.{PostgresLib, text}
use svitock.Extern.Uuid.{UuidLib}
use svitock.Domain.{User}
use svitock.Database.{acquire}
use svitock.Postgres.{Store}
use svitock.Application.Ports.{UserRepository}

module _ (lib : PostgresLib) (uuid : UuidLib) where
  open lib use {Row, begin, exec_params, commit, abort, field_text}
  open uuid use {Uuid, string_generator, to_string}

  -- What follows the search: the first row of the result, if there is one.
  unfoldable pub first_user : ℕ → List Row → Outcome (Option (User Uuid))
  first_user now [] = ok none
  first_user now (row ∷ rows) = do
    id ← field_text row (codes "id") >>= string_generator
    username ← field_text row (codes "username")
    password_hash ← field_text row (codes "password_hash")
    ok (
        some (record {
          id = id;
          username = username;
          password_hash = password_hash;
          created_at = now;
        }))

  unfoldable pub find_by_username : ℕ → Store lib → Bytes → Outcome (Store lib × Option (User Uuid))
  unfolding first_user
  find_by_username now s username = do
    acquired ← acquire s.pool
    transaction ← begin s.server acquired.1
    result ←
        exec_params transaction
          (codes "SELECT id, username, password_hash FROM users WHERE username = $1")
          (text username ∷ [])
    user ← first_user now result.1
    ok (record { pool = acquired.0; server = abort result.0 }, user)

  unfoldable pub create : Store lib → User Uuid → Outcome (Store lib × Bool)
  create s user = do
    acquired ← acquire s.pool
    transaction ← begin s.server acquired.1
    result ←
        exec_params transaction
          (codes
            "INSERT INTO users (id, username, password_hash, created_at) VALUES ($1, $2, $3, NOW())")
          (text (to_string user.id) ∷ text user.username ∷ text user.password_hash ∷ [])
    server ← commit result.0
    ok (record { pool = acquired.0; server = server }, true)

  abbrev pub postgres_users : ℕ → UserRepository Uuid
  postgres_users now = record {
    State = Store lib;
    find_by_username = find_by_username now;
    create = create;
  }
