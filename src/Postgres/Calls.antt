-- ===== src/Postgres/Calls.antt =====
-- The calls that the repositories make around their statements.
use svitock.Base.{
  ℕ, ◌≡◌, refl, ap, ◌∙◌, Bool, true, List, [], ◌∷◌, ◌++◌, length, Bytes, same, Outcome, ok, ◌>>=◌,
  >>=-eq-ok, Outcome-cases, Exception, throws, ◌⊎◌, inl, inr, if◌then◌else◌,
}
use svitock.Extern.Postgres.{
  PostgresLib, IsPostgres, IsStatement, Value, Table, name_of, columns_of, insert_into, new_row,
}
use svitock.Database.{PostgresPool, acquire}
use svitock.Postgres.{Store}

-- The calls that each `create` makes, around its statement.
abbrev pub insertion_call :
    (lib : PostgresLib) → Store lib → Bytes → List Value → Outcome (Store lib × Bool)
insertion_call lib s statement values = do
  acquired ← acquire s.pool
  transaction ← lib.begin s.server acquired.1
  result ← lib.exec_params transaction statement values
  server ← lib.commit result.0
  ok (record { pool = acquired.0; server = server }, true)

-- The calls that each search makes, around its statement and what it reads of the result.
abbrev pub search_call :
    {B : Type 0} (lib : PostgresLib)
    → Store lib
    → Bytes
    → List Value
    → (List lib.Row → Outcome B)
    → Outcome (Store lib × B)
search_call lib s statement values read = do
  acquired ← acquire s.pool
  transaction ← lib.begin s.server acquired.1
  result ← lib.exec_params transaction statement values
  b ← read result.1
  ok (record { pool = acquired.0; server = lib.abort result.0 }, b)

module _ {lib : PostgresLib} (postgres : IsPostgres lib) where
  -- The table has one more row, and no other table has changed.
  abbrev pub IsAdded : lib.Server → lib.Server → Table → List Value → Type 0
  IsAdded before after table values =
      (now : ℕ) × ((t : Table)
        → lib.rows after t ≡ (
            if same (name_of t) (name_of table)
            then lib.rows before t ++ new_row (columns_of table) values now ∷ []
            else lib.rows before t))

  transaction-IsAdded :
      (before after : lib.Server) (c : lib.Connection) (w w' : lib.Work) (table : Table)
      (values : List Value) (result : List lib.Row)
      → length values ≡ length (columns_of table)
      → lib.begin before c ≡ ok w
      → lib.exec_params w (insert_into table) values ≡ ok (w', result)
      → lib.commit w' ≡ ok after
      → IsAdded before after table values
  transaction-IsAdded before after c w w' table values result sized begun executed committed =
      let (now, added) = postgres.insertion w w' table values result sized executed in
      (
        now,
        λ t.
            rw
              (
                postgres.rows-commit w' after committed t,
                added t,
                (postgres.seen-begin before c w begun t).0,
              )
              refl,
      )

  -- The calls of an insertion that returns.
  pub insertion_call-calls :
      (s s' : Store lib) (stored : Bool) (statement : Bytes) (values : List Value)
      → insertion_call lib s statement values ≡ ok (s', stored)
      → (c : lib.Connection) × (w : lib.Work) × (w' : lib.Work) × (result : List lib.Row) × (acquire
            s.pool
          ≡ ok (s'.pool, c))
        × (lib.begin s.server c ≡ ok w)
        × (lib.exec_params w statement values ≡ ok (w', result))
        × (lib.commit w' ≡ ok s'.server)
        × (stored ≡ true)
  insertion_call-calls s s' stored statement values h =
      let ((pool, c), acquired, h1) = >>=-eq-ok (acquire s.pool) _ h in
      let (w, begun, h2) = >>=-eq-ok (lib.begin s.server c) _ h1 in
      let ((w', result), executed, h3) = >>=-eq-ok (lib.exec_params w statement values) _ h2 in
      let (db, committed, h4) = >>=-eq-ok (lib.commit w') _ h3 in
      let pools : pool ≡ s'.pool = cc in
      let servers : db ≡ s'.server = cc in
      (
        c,
        w,
        w',
        result,
        acquired ∙ ap (λ p. ok (p, c)) pools,
        begun,
        executed,
        committed ∙ ap ok servers,
        cc,
      )

  -- An insertion that returns has added one row to the table.
  pub insertion_call_lem :
      (s s' : Store lib) (stored : Bool) (table : Table) (values : List Value)
      → length values ≡ length (columns_of table)
      → insertion_call lib s (insert_into table) values ≡ ok (s', stored)
      → (stored ≡ true) × IsAdded s.server s'.server table values
  insertion_call_lem s s' stored table values sized h =
      let (c, w, w', result, acquired, begun, executed, committed, success) =
        insertion_call-calls s s' stored (insert_into table) values h in
      (
        success,
        transaction-IsAdded s.server s'.server c w w' table values result sized begun executed
            committed,
      )

  -- A search that returns has read the result of its statement, over the tables of the server, and
  -- leaves them as they were.
  pub search_call_lem :
      {B : Type 0} (s s' : Store lib) (statement : Bytes) (values : List Value)
      (read : List lib.Row → Outcome B) (b : B)
      → IsStatement statement
      → search_call lib s statement values read ≡ ok (s', b)
      → (w : lib.Work) × (w' : lib.Work) × (result : List lib.Row) × ((t : Table)
          → lib.seen w t ≡ lib.rows s.server t)
        × (lib.exec_params w statement values ≡ ok (w', result))
        × (read result ≡ ok b)
        × ((t : Table) → lib.rows s'.server t ≡ lib.rows s.server t)
  search_call_lem s s' statement values read b known h =
      let ((pool, c), acquired, h1) = >>=-eq-ok (acquire s.pool) _ h in
      let (w, begun, h2) = >>=-eq-ok (lib.begin s.server c) _ h1 in
      let ((w', result), executed, h3) = >>=-eq-ok (lib.exec_params w statement values) _ h2 in
      let (b', reads, h4) = >>=-eq-ok (read result) _ h3 in
      let same_result : b' ≡ b = cc in
      let left : s'.server ≡ lib.abort w' = cc in
      (
        w,
        w',
        result,
        λ t. (postgres.seen-begin s.server c w begun t).0,
        executed,
        reads ∙ ap ok same_result,
        λ t.
            ap (λ db. lib.rows db t) left
            ∙ (postgres.rows-abort w' t
                ∙ (postgres.original-exec_params w w' statement values result known executed t
                    ∙ (postgres.seen-begin s.server c w begun t).1)),
      )

  -- The pool has no connection to give, or the transaction does not start on the one that it gives,
  -- or it starts and the statement fails in it, in each case with this exception.
  abbrev pub Fails : Store lib → Bytes → List Value → Exception → Type 0
  Fails s statement values x =
      (acquire s.pool ≡ throws x)
      ⊎ ((pool : PostgresPool lib.Connection) × (c : lib.Connection) × (acquire s.pool
            ≡ ok (pool, c))
          × (lib.begin s.server c ≡ throws x))
      ⊎ ((pool : PostgresPool lib.Connection) × (c : lib.Connection) × (w : lib.Work) × (acquire
              s.pool
            ≡ ok (pool, c))
          × (lib.begin s.server c ≡ ok w)
          × (lib.exec_params w statement values ≡ throws x))

  -- Where every result can be read, a search fails only if the database does.
  pub search_call-Fails :
      {B : Type 0} (s : Store lib) (statement : Bytes) (values : List Value)
      (read : List lib.Row → Outcome B) (x : Exception)
      → ((w w' : lib.Work) (result : List lib.Row)
          → ((t : Table) → lib.seen w t ≡ lib.rows s.server t)
          → lib.exec_params w statement values ≡ ok (w', result)
          → (b : B) × (read result ≡ ok b))
      → search_call lib s statement values read ≡ throws x
      → Fails s statement values x
  search_call-Fails s statement values read x readable h = elim (Outcome-cases (acquire s.pool)) [
    | inr (y, failed) ↦ inl cc
    | inl ((pool, c), acquired) ↦ elim (Outcome-cases (lib.begin s.server c)) [
      | inr (y, failed) ↦ inr (inl (pool, c, acquired, cc))
      | inl (w, begun) ↦ elim (Outcome-cases (lib.exec_params w statement values)) [
        | inr (y, failed) ↦ inr (inr (pool, c, w, acquired, begun, cc))
        | inl ((w', result), executed) ↦
            let (b, reads) =
              readable w w' result (λ t. (postgres.seen-begin s.server c w begun t).0) executed in
            absurd cc
      ]
    ]
  ]
