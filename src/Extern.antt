-- ===== src/Extern.antt =====
-- The third-party code that the program calls, as records of operations that the model takes as
-- parameters, with what their documentation promises as separate records of laws.
pub mod Json
pub mod Uuid
pub mod Queue
pub mod Digest
pub mod Yaml
pub mod Postgres
pub mod Acceptor
