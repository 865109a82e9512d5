-- ===== src/Postgres/Messages/Kept.antt =====
-- The repository of messages keeps what it creates, as its port promises.
use svitock.Base.{ℕ, ◌≡◌, refl, List, [], ◌∷◌, ◌++◌, Bool, ok, if◌then◌else◌}
use svitock.Extern.Postgres.{PostgresLib, IsPostgres}
use svitock.Extern.Uuid.{UuidLib}
use svitock.Domain.{Message}
use svitock.Application.Ports.{KeepsMessages, SameMessage}
use svitock.Postgres.{Store}
use svitock.Postgres.Messages.{create, postgres_messages}
use svitock.Postgres.Messages.History.{Holds, create-Holds}

module _ (lib : PostgresLib) (uuid : UuidLib) (postgres : IsPostgres lib) where
  pub create-keeps :
      (s s' : Store lib) (ms : List (Message uuid.Uuid)) (m : Message uuid.Uuid) (stored : Bool)
      → Holds lib uuid s ms
      → create lib uuid s m ≡ ok (s', stored)
      → (m' : Message uuid.Uuid) × SameMessage m' m
        × Holds lib uuid s' (if stored then ms ++ m' ∷ [] else ms)
  create-keeps s s' ms m stored holds created =
      let (success, (now, held)) = create-Holds lib uuid postgres s s' ms m stored holds created in
      (record m { created_at = now }, (refl, refl, refl, refl), rw success held)

  -- Over a server that keeps to its documentation, the table holds what was created, in this order.
  abbrev pub postgres_messages-KeepsMessages :
      (clock : ℕ → ℕ) → KeepsMessages (postgres_messages lib uuid clock)
  postgres_messages-KeepsMessages clock = record {
    Holds = Holds lib uuid;
    create-Holds = create-keeps;
  }
