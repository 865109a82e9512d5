-- ===== src/Presentation/Accounts.antt =====
-- The controllers over PostgreSQL.
use svitock.Base.{
  ◌≡◌, refl, ℕ, true, false, none, Option, Bytes, same, is_empty, ok, throws, Exception,
  Outcome-cases, inl, inr, if◌then◌else◌,
}
use svitock.Extern.Postgres.{PostgresLib, IsPostgres}
use svitock.Extern.Uuid.{UuidLib, IsUuid}
use svitock.Domain.{User}
use svitock.Application.{create_if_absent, login_user}
use svitock.Application.Accounts.{absent, login_after_create, login_user-register_user}
use svitock.Postgres.{Store}
use svitock.Postgres.Users.{create, find_by_username, postgres_users}
use svitock.Postgres.Users.Registered.{
  HasUniqueNames, IsReachable, postgres_users-KeepsUsers, create_unique, create-free,
  find_by_username-free,
}
use svitock.Presentation.{register_user_by_password, login_user_by_password}

module _ (lib : PostgresLib) (uuid : UuidLib) (postgres : IsPostgres lib)
    (unique : HasUniqueNames lib) where
  open uuid use {Uuid}

  -- Over a server that keeps to its documentation, that can be reached, and that refuses a second
  -- user of a name: after a registration that reports success, a login under the same name returns,
  -- and succeeds exactly with the same password, and a second registration of the name reports
  -- failure.
  pub login_user_by_password-register_user_by_password :
      (clock : ℕ) (s s' : Store lib) (id id' : Uuid) (now later : ℕ)
      (username password_hash attempt : Bytes)
      → IsUuid uuid
      → IsReachable lib
      → register_user_by_password (postgres_users lib uuid clock) s id now username password_hash
        ≡ ok (s', true)
      → (s'' : Store lib) × (login_user_by_password
            (postgres_users lib uuid clock)
            s'
            username
            attempt
          ≡ ok (s'', same password_hash attempt))
        × (register_user_by_password (postgres_users lib uuid clock) s' id' later username attempt
            ≡ ok (if is_empty attempt then s' else s'', false))
  unfolding register_user_by_password login_user_by_password
  login_user_by_password-register_user_by_password clock s s' id id' now later username
        password_hash attempt ids reachable registers =
      login_user-register_user (postgres_users lib uuid clock) s s' id id' now later username
        password_hash attempt
        (postgres_users-KeepsUsers lib uuid postgres unique clock ids reachable) registers

  second :
      (clock : ℕ) (s s' : Store lib) (id id' : Uuid) (now later : ℕ)
      (username password_hash attempt : Bytes)
      → create lib uuid s
          (record { id = id; username = username; password_hash = password_hash; created_at = now })
        ≡ ok (s', true)
      → (x : Exception) × (create_if_absent
            (postgres_users lib uuid clock)
            id'
            later
            username
            attempt
            s'
            none
          ≡ throws x)
  unfolding create_if_absent
  second clock s s' id id' now later username password_hash attempt creates =
      elim (Outcome-cases (
        create lib uuid s' (record {
          id = id';
          username = username;
          password_hash = attempt;
          created_at = later;
        }))) [
          | inr thrown ↦ thrown
          | inl ((s'', stored), again) ↦
              absurd
                (create_unique lib uuid postgres unique s s' s'' _ _ true stored refl creates again)
        ]

  -- Two registrations of one name that have both searched before either has
  -- created: where the server keeps to its documentation, can be reached and refuses a second user
  -- of a name, after the first to create has reported success, the second ends with an exception of
  -- the database, not with the result `false`, and a login under the name succeeds exactly with the
  -- password of the first.
  pub create_if_absent-create_if_absent :
      (clock : ℕ) (s0 s1 s2 s3 : Store lib) (found found' : Option (User Uuid)) (id id' : Uuid)
      (now later : ℕ) (username password_hash attempt : Bytes)
      → IsUuid uuid
      → IsReachable lib
      → find_by_username lib uuid clock s0 username ≡ ok (s1, found)
      → find_by_username lib uuid clock s1 username ≡ ok (s2, found')
      → create_if_absent (postgres_users lib uuid clock) id now username password_hash s2 found
        ≡ ok (s3, true)
      → ((x : Exception) × (create_if_absent
              (postgres_users lib uuid clock)
              id'
              later
              username
              attempt
              s3
              found'
            ≡ throws x))
        × ((s4 : Store lib) × (login_user (postgres_users lib uuid clock) s3 username attempt
              ≡ ok (s4, same password_hash attempt)))
  create_if_absent-create_if_absent clock s0 s1 s2 s3 found found' id id' now later username
        password_hash attempt ids reachable searches searches' creates =
      let stored =
        absent (postgres_users lib uuid clock) id now username password_hash s2 s3 found creates in
      let free = create-free lib uuid postgres unique s2 s3 _ true stored in
      let unfound =
        find_by_username-free lib uuid postgres unique clock s1 s2 username found' searches' free in
      (
        rw unfound (second clock s2 s3 id id' now later username password_hash attempt stored),
        login_after_create (postgres_users lib uuid clock) s2 s3 id now username password_hash
            attempt (postgres_users-KeepsUsers lib uuid postgres unique clock ids reachable) stored,
      )
