-- ===== src/Postgres/Users/Registered.antt =====
-- A database that answers, and whose table of users has a unique name per user, keeps its users.
use svitock.Base.{
  ℕ, ◌≡◌, refl, inl, inr, sym, ap, ◌∙◌, subst, Bool, true, none, some, Option, List, [], ◌∷◌, Bytes,
  codes, same, same_refl, ok,
}
use svitock.Base.Dict.{Dict, lookup}
use svitock.Extern.Postgres.{
  PostgresLib, IsPostgres, Value, user_table, columns_of, text, insert_into, select_where, new_row,
  where_text, GivesAll,
}
use svitock.Extern.Uuid.{UuidLib, IsUuid}
use svitock.Domain.{User}
use svitock.Application.Ports.{KeepsUsers}
use svitock.Database.{PostgresPool, acquire}
use svitock.Database.Turns.{acquire-acquire}
use svitock.Postgres.{Store}
use svitock.Postgres.Rows.{insert_into_users, select_users, perm_of_one, perm_of_nil, one_match}
use svitock.Postgres.Calls.{insertion_call-calls, insertion_call_lem, search_call_lem}
use svitock.Postgres.Users.{first_user, find_by_username, create, postgres_users}

-- Transactions start, and a search for a name that a user has returns.
pub record IsReachable (lib : PostgresLib) : Type 0 where
  pub begins : (db : lib.Server) (c : lib.Connection) → (w : lib.Work) × (lib.begin db c ≡ ok w)
  pub searches :
      (w : lib.Work) (t : Bytes) (row : Dict Value) (rows : List (Dict Value))
      → where_text (codes "username") t (lib.seen w user_table) ≡ row ∷ rows
      → (w' : lib.Work) × (result : List lib.Row) × (lib.exec_params w
            (select_where user_table)
            (text t ∷ [])
          ≡ ok (w', result))

-- A row whose name is taken is refused.
abbrev pub HasUniqueNames : PostgresLib → Type 0
HasUniqueNames lib =
    (w w' : lib.Work) (id name hash : Bytes) (result : List lib.Row)
    → lib.exec_params w (insert_into user_table) (text id ∷ text name ∷ text hash ∷ [])
      ≡ ok (w', result)
    → where_text (codes "username") name (lib.seen w user_table) ≡ []

module _ (lib : PostgresLib) (uuid : UuidLib) where
  open uuid use {Uuid, to_string}

  abbrev user_row : User Uuid → ℕ → Dict Value
  user_row u now =
      new_row (columns_of user_table)
        (text (to_string u.id) ∷ text u.username ∷ text u.password_hash ∷ []) now

  -- The one row of a user can be read.
  first_user_lem :
      (now stamp : ℕ) (u : User Uuid) (result : List lib.Row)
      → IsUuid uuid
      → GivesAll lib (columns_of user_table) (user_row u stamp ∷ []) result
      → first_user lib uuid now result ≡ ok (some (record u { created_at = now }))
  unfolding first_user lookup same
  first_user_lem now stamp u [] ids gives = absurd gives
  first_user_lem now stamp u (r ∷ []) ids ((id, (username, (hash, end))), last) =
      rw (id, username, hash, ids.string_generator-to_string u.id) refl
  first_user_lem now stamp u (r ∷ r' ∷ rs) ids (given, more) = absurd more

  module _ (postgres : IsPostgres lib) (unique : HasUniqueNames lib) where
    -- After a creation that returned, the search for the name matches the row of the user only.
    create-where_text :
        (s s' : Store lib) (u : User Uuid) (stored : Bool)
        → create lib uuid s u ≡ ok (s', stored)
        → (stamp : ℕ) × (where_text (codes "username") u.username (lib.rows s'.server user_table)
            ≡ user_row u stamp ∷ [])
    unfolding create same lookup
    create-where_text s s' u stored h =
        let (c, w, w', result, acquired, begun, executed, committed, success) =
          insertion_call-calls postgres s s' stored _ _ h in
        let (success', (stamp, added)) =
          insertion_call_lem postgres s s' stored user_table
            (text (to_string u.id) ∷ text u.username ∷ text u.password_hash ∷ []) refl
            (rw insert_into_users h) in
        let free =
          unique w w' (to_string u.id) u.username u.password_hash result
            (rw insert_into_users executed) in
        let seen = (postgres.seen-begin s.server c w begun user_table).0 in
        (
          stamp,
          one_match (codes "username") u.username (user_row u stamp) (lib.rows s.server user_table)
              (lib.rows s'.server user_table) (added user_table) (same_refl u.username)
              (ap (where_text (codes "username") u.username) (sym seen) ∙ free),
        )

    find_by_username_lem :
        (now stamp : ℕ) (s : Store lib) (u : User Uuid) (pool : PostgresPool lib.Connection)
        (c : lib.Connection)
        → IsUuid uuid
        → IsReachable lib
        → acquire s.pool ≡ ok (pool, c)
        → where_text (codes "username") u.username (lib.rows s.server user_table)
          ≡ user_row u stamp ∷ []
        → (s' : Store lib) × (find_by_username lib uuid now s u.username
            ≡ ok (s', some (record u { created_at = now })))
    unfolding find_by_username
    find_by_username_lem now stamp s u pool c ids reachable acquired matching =
        let (w, begun) = reachable.begins s.server c in
        let seen = (postgres.seen-begin s.server c w begun user_table).0 in
        let (w', result, executed) =
          reachable.searches w u.username (user_row u stamp) []
            (ap (where_text (codes "username") u.username) seen ∙ matching) in
        let (order, permuted, gives) = postgres.search w w' user_table u.username result executed in
        let one =
          perm_of_one (user_row u stamp) permuted
            (ap (where_text (codes "username") u.username) seen ∙ matching) in
        let read =
          first_user_lem now stamp u result ids
            (subst (λ stored. GivesAll lib (columns_of user_table) stored result) one gives) in
        let asked = rw select_users at executed in
        (
          record { pool = pool; server = lib.abort w' },
          rw (find_by_username, acquired, begun, asked, read) refl,
        )

    -- A creation that returns has found its name free.
    pub create-free :
        (s s' : Store lib) (u : User Uuid) (stored : Bool)
        → create lib uuid s u ≡ ok (s', stored)
        → where_text (codes "username") u.username (lib.rows s.server user_table) ≡ []
    unfolding create
    create-free s s' u stored h =
        let (c, w, w', result, acquired, begun, executed, committed, success) =
          insertion_call-calls postgres s s' stored _ _ h in
        let free =
          unique w w' (to_string u.id) u.username u.password_hash result
            (rw insert_into_users executed) in
        ap (where_text (codes "username") u.username)
          (sym (postgres.seen-begin s.server c w begun user_table).0)
        ∙ free

    no_rows :
        (rows : List (Dict Value)) (result : List lib.Row)
        → rows ≡ []
        → GivesAll lib (columns_of user_table) rows result
        → result ≡ []
    no_rows [] [] h gives = refl
    no_rows [] (r ∷ rs) h gives = absurd gives
    no_rows (d ∷ ds) result h gives = cc

    -- A search for a name that is free afterwards has found none.
    pub find_by_username-free :
        (now : ℕ) (s s' : Store lib) (name : Bytes) (found : Option (User Uuid))
        → find_by_username lib uuid now s name ≡ ok (s', found)
        → where_text (codes "username") name (lib.rows s'.server user_table) ≡ []
        → found ≡ none
    unfolding find_by_username first_user
    find_by_username-free now s s' name found h free =
        let (w, w', result, sees, executed, reads, kept) =
          search_call_lem postgres s s' _ (text name ∷ []) (first_user lib uuid now) found
            (user_table, inr (inl (sym select_users))) h in
        let (order, permuted, gives) =
          postgres.search w w' user_table name result (rw select_users executed) in
        let nothing = perm_of_nil permuted (
          ap (where_text (codes "username") name) (sees user_table ∙ sym (kept user_table))
          ∙ free) in
        let empty = no_rows order result nothing gives in
        let read : first_user lib uuid now [] ≡ ok found =
          ap (first_user lib uuid now) (sym empty) ∙ reads in
        cc

    -- Over a server that keeps to its documentation, that can be reached, and that refuses a second
    -- user of a name: a user whose creation has reported success is found under its name, with its
    -- password, whatever is in the pool and in the tables.
    pub postgres_users-KeepsUsers :
        (now : ℕ) → IsUuid uuid → IsReachable lib → KeepsUsers (postgres_users lib uuid now)
    unfolding create
    postgres_users-KeepsUsers now ids reachable = record {
      find-create = λ s s' u h.
          let (c, w, w', result, acquired, begun, executed, committed, success) =
            insertion_call-calls postgres s s' true _ _ h in
          let (pool, c', again) = acquire-acquire s.pool s'.pool c acquired in
          let (stamp, matching) = create-where_text s s' u true h in
          let (s'', found) =
            find_by_username_lem now stamp s' u pool c' ids reachable again matching in
          (s'', record u { created_at = now }, found, refl);
    }

    -- After a creation that returned, no other creation of its name returns.
    pub create_unique :
        (s s' s'' : Store lib) (u v : User Uuid) (stored stored' : Bool)
        → v.username ≡ u.username
        → create lib uuid s u ≡ ok (s', stored)
        → create lib uuid s' v ≡ ok (s'', stored')
        → ⊥
    unfolding create
    create_unique s s' s'' u v stored stored' same_name h k =
        let (stamp, matching) = create-where_text s s' u stored h in
        let (c, w, w', result, acquired, begun, executed, committed, success) =
          insertion_call-calls postgres s' s'' stored' _ _ k in
        let free =
          unique w w' (to_string v.id) v.username v.password_hash result
            (rw insert_into_users executed) in
        let seen = (postgres.seen-begin s'.server c w begun user_table).0 in
        let none_matches : where_text (codes "username") u.username (lib.rows s'.server user_table)
            ≡ [] =
          rw (seen, same_name) at free in
        cc
