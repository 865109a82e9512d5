-- ===== src/Extern/Postgres.antt =====
-- libpqxx and the server behind it: transactions that run a statement, and the program's tables.
use mathlib.Core.List.{Permᴰ}
use svitock.Base.{
  ℕ, suc, ◌≤◌, ◌≡◌, ◌⊎◌, Bool, false, Option, some, List, [], ◌∷◌, ◌++◌, map, length, take, All,
  Bytes, codes, same, Outcome, ok, if◌then◌else◌,
}
use svitock.Base.Dict.{Dict, lookup}
use svitock.Base.Digits.{to_string}

-- A parameter or a cell. An `int32_t` stands as its 32-bit pattern, a time as a number.
pub data Value : Type 0 where
  text : Bytes → Value
  int32 : ℕ → Value
  size : ℕ → Value
  time : ℕ → Value

-- The tables that the program names.
pub data Table : Type 0 where
  message_table chat_table user_table : Table

pub record PostgresLib : Type 1 where
  pub Connection : Type 0
  pub Server : Type 0
  pub Work : Type 0
  pub Row : Type 0
  -- `pqxx::work transaction(*connection)`.
  pub begin : Server → Connection → Outcome Work
  pub exec_params : Work → Bytes → List Value → Outcome (Work × List Row)
  pub commit : Work → Outcome Server
  -- The destructor of a transaction that was not committed.
  pub abort : Work → Server
  -- `row[name].as<std::string>()` and `row[name].as<std::int32_t>()`.
  pub field_text : Row → Bytes → Outcome Bytes
  pub field_int32 : Row → Bytes → Outcome ℕ
  -- What the laws speak of: the rows of a table, on the server, as a transaction sees them, and as
  -- they were when it began.
  pub rows : Server → Table → List (Dict Value)
  pub seen : Work → Table → List (Dict Value)
  pub original : Work → Table → List (Dict Value)

-- The name of a table, the columns that the program writes and reads, and the one it searches.
abbrev pub name_of : Table → Bytes
name_of message_table = codes "messages"
name_of chat_table = codes "chats"
name_of user_table = codes "users"

abbrev pub columns_of : Table → List Bytes
columns_of message_table = codes "id" ∷ codes "chat_id" ∷ codes "sender_id" ∷ codes "content" ∷ []
columns_of chat_table = codes "id" ∷ codes "type" ∷ []
columns_of user_table = codes "id" ∷ codes "username" ∷ codes "password_hash" ∷ []

abbrev pub key_of : Table → Bytes
key_of message_table = codes "chat_id"
key_of chat_table = codes "id"
key_of user_table = codes "username"

-- The texts of the statements, in the form that the repositories use.
abbrev comma : List Bytes → Bytes
comma [] = []
comma (x ∷ []) = x
comma (x ∷ y ∷ ys) = x ++ (codes ", " ++ comma (y ∷ ys))

abbrev placeholders : ℕ → List Bytes → List Bytes
placeholders i [] = []
placeholders i (c ∷ cs) = (b'$' ∷ to_string i) ∷ placeholders (suc i) cs

unfoldable pub insert_into : Table → Bytes
unfolding to_string
insert_into table =
    codes "INSERT INTO "
    ++ (name_of table
        ++ (codes " ("
            ++ (comma (columns_of table)
                ++ (codes ", created_at) VALUES ("
                    ++ (comma (placeholders 1 (columns_of table)) ++ codes ", NOW())")))))

unfoldable pub select_where : Table → Bytes
select_where table =
    codes "SELECT "
    ++ (comma (columns_of table)
        ++ (codes " FROM "
            ++ (name_of table ++ (codes " WHERE " ++ (key_of table ++ codes " = $1")))))

unfoldable pub select_recent : Table → Bytes
unfolding select_where
select_recent table = select_where table ++ codes " ORDER BY created_at DESC LIMIT $2"

-- The row that an insertion makes.
abbrev pub new_row : List Bytes → List Value → ℕ → Dict Value
new_row (c ∷ cs) (v ∷ vs) now = (c, v) ∷ new_row cs vs now
new_row cs vs now = (codes "created_at", time now) ∷ []

-- The cell of a column holds a text.
abbrev pub holds_text : Bytes → Option Value → Bool
holds_text t (some (text u)) = same u t
holds_text t _ = false

abbrev pub where_text : Bytes → Bytes → List (Dict Value) → List (Dict Value)
where_text key t [] = []
where_text key t (row ∷ table) =
    let rest = where_text key t table in if holds_text t (lookup key row) then row ∷ rest else rest

abbrev time_of : Option Value → ℕ
time_of (some (time n)) = n
time_of _ = 0

abbrev pub row_time : Dict Value → ℕ
row_time row = time_of (lookup (codes "created_at") row)

-- Each number is at most the one before it.
abbrev pub IsDescending : List ℕ → Type 0
IsDescending [] = Unit
IsDescending (n ∷ []) = Unit
IsDescending (n ∷ m ∷ ms) = (m ≤ n) × IsDescending (m ∷ ms)

module _ (lib : PostgresLib) where
  open lib use {Row, field_text, field_int32}

  -- A text is read as itself, and so is a number. What a conversion between the two gives, no law
  -- says.
  abbrev pub ReadsAs : Row → Bytes → Option Value → Type 0
  ReadsAs row c (some (text t)) = field_text row c ≡ ok t
  ReadsAs row c (some (int32 n)) = field_int32 row c ≡ ok n
  ReadsAs row c _ = Unit

  -- A row of a result gives the selected columns of a row of the table.
  abbrev pub Gives : List Bytes → Dict Value → Row → Type 0
  Gives columns stored row = All (λ c. ReadsAs row c (lookup c stored)) columns

  abbrev pub GivesAll : List Bytes → List (Dict Value) → List Row → Type 0
  GivesAll columns [] [] = Unit
  GivesAll columns [] (r ∷ rs) = ⊥
  GivesAll columns (d ∷ ds) [] = ⊥
  GivesAll columns (d ∷ ds) (r ∷ rs) = Gives columns d r × GivesAll columns ds rs

-- A statement of one of these forms.
abbrev pub IsStatement : Bytes → Type 0
IsStatement statement =
    (table : Table) × ((statement ≡ insert_into table)
      ⊎ (statement ≡ select_where table)
      ⊎ (statement ≡ select_recent table))

-- The documented behaviour of the statements, where they succeed.
pub record IsPostgres (lib : PostgresLib) : Type 0 where
  pub seen-begin :
      (db : lib.Server) (c : lib.Connection) (w : lib.Work)
      → lib.begin db c ≡ ok w
      → (table : Table)
      → (lib.seen w table ≡ lib.rows db table) × (lib.original w table ≡ lib.rows db table)
  -- None of these statements changes what a rollback goes back to, and a transaction that is
  -- destroyed before its commit is rolled back.
  pub original-exec_params :
      (w w' : lib.Work) (statement : Bytes) (values : List Value) (result : List lib.Row)
      → IsStatement statement
      → lib.exec_params w statement values ≡ ok (w', result)
      → (table : Table) → lib.original w' table ≡ lib.original w table
  pub rows-abort :
      (w : lib.Work) (table : Table) → lib.rows (lib.abort w) table ≡ lib.original w table
  pub rows-commit :
      (w : lib.Work) (db : lib.Server)
      → lib.commit w ≡ ok db
      → (table : Table) → lib.rows db table ≡ lib.seen w table
  -- An insertion adds a row with a time of the server's clock, to its table only.
  pub insertion :
      (w w' : lib.Work) (table : Table) (values : List Value) (result : List lib.Row)
      → length values ≡ length (columns_of table)
      → lib.exec_params w (insert_into table) values ≡ ok (w', result)
      → (now : ℕ) × ((t : Table)
          → lib.seen w' t ≡ (
              if same (name_of t) (name_of table)
              then lib.seen w t ++ new_row (columns_of table) values now ∷ []
              else lib.seen w t))
  -- A search gives the rows that match, in some order.
  pub search :
      (w w' : lib.Work) (table : Table) (t : Bytes) (result : List lib.Row)
      → lib.exec_params w (select_where table) (text t ∷ []) ≡ ok (w', result)
      → (order : List (Dict Value)) × Permᴰ order (where_text (key_of table) t (lib.seen w table))
        × GivesAll lib (columns_of table) order result
  -- The same with the newest rows first, and no more of them than the limit.
  pub recent_search :
      (w w' : lib.Work) (table : Table) (t : Bytes) (limit : ℕ) (result : List lib.Row)
      → lib.exec_params w (select_recent table) (text t ∷ size limit ∷ []) ≡ ok (w', result)
      → (order : List (Dict Value)) × Permᴰ order (where_text (key_of table) t (lib.seen w table))
        × IsDescending (map row_time order)
        × GivesAll lib (columns_of table) (take limit order) result
