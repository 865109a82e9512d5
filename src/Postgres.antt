-- ===== src/Postgres.antt =====
-- infrastructure/repositories: the repositories over a PostgreSQL pool. The times at which a handler
-- reads the system's clock are arguments.
pub mod Rows
pub mod Calls
pub mod Messages
pub mod Chats
pub mod Users
use svitock.Extern.Postgres.{PostgresLib}
use svitock.Database.{PostgresPool}

-- The shared pool and the server that its connections lead to.
pub record Store (lib : PostgresLib) : Type 0 where
  pub pool : PostgresPool lib.Connection
  pub server : lib.Server
