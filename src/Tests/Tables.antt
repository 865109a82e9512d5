-- ===== src/Tests/Tables.antt =====
-- A small server that follows the documented behaviour.
use svitock.Base.{
  ℕ, ◌≡◌, refl, sym, Bool, false, not, Option, some, none, ltb, ◌||◌, ◌*◌, ◌+◌, ◌-◌, ◌^◌, List, [],
  ◌∷◌, ◌++◌, map, take, Bytes, codes, same, is_empty, Outcome, ok, throws, database_error,
  if◌then◌else◌,
}
use svitock.Base.Digits.{to_string}
use svitock.Base.Dict.{Dict, lookup}
use svitock.Extern.Postgres.{
  PostgresLib, Value, text, size, Table, message_table, chat_table, user_table, name_of, columns_of,
  key_of, insert_into, select_where, select_recent, new_row, where_text, int32, time,
}

-- The values of the rows; every row gets the same time.
abbrev pub Tables : Type 0
Tables = Table → List (List Value)

abbrev pub table_rows : Tables → Table → List (Dict Value)
table_rows db table = map (λ values. new_row (columns_of table) values 7) (db table)

pub data Statement : Type 0 where
  insertion search recent_search : Table → Statement

abbrev pub statements : List (Bytes × Statement)
statements =
    (insert_into message_table, insertion message_table)
    ∷ (insert_into chat_table, insertion chat_table)
    ∷ (insert_into user_table, insertion user_table)
    ∷ (select_where message_table, search message_table)
    ∷ (select_where chat_table, search chat_table)
    ∷ (select_where user_table, search user_table)
    ∷ (select_recent message_table, recent_search message_table)
    ∷ (select_recent chat_table, recent_search chat_table)
    ∷ (select_recent user_table, recent_search user_table)
    ∷ []

abbrev pub add_row : Tables → Table → List Value → Tables
add_row db table values t = if same (name_of t) (name_of table) then db t ++ values ∷ [] else db t

-- A second user of a name is refused.
abbrev pub name_taken : Tables → Table → List Value → Bool
name_taken db user_table (id ∷ text name ∷ rest) =
    not (is_empty (where_text (codes "username") name (table_rows db user_table)))
name_taken db table values = false

abbrev pub run : Tables → Option Statement → List Value → Outcome (Tables × List (Dict Value))
run db (some (insertion table)) values =
    if name_taken db table values then throws database_error else ok (add_row db table values, [])
run db (some (search table)) (text t ∷ []) =
    ok (db, where_text (key_of table) t (table_rows db table))
run db (some (recent_search table)) (text t ∷ size n ∷ []) =
    ok (db, take n (where_text (key_of table) t (table_rows db table)))
run db statement values = throws database_error

-- A number is read as the text of its digits, and a text of digits as its number.
abbrev number_text : ℕ → Bytes
number_text n = if ltb n (2 ^ 31) then to_string n else b'-' ∷ to_string (2 ^ 32 - n)

abbrev read_digits : ℕ → Bytes → Outcome ℕ
read_digits n [] = if ltb n (2 ^ 31) then ok n else throws database_error
read_digits n (c ∷ cs) =
    let rest = read_digits (n * 10 + (c - b'0')) cs in
    if ltb c b'0' || ltb b'9' c then throws database_error else rest

abbrev cell_text : Option Value → Outcome Bytes
cell_text (some (text t)) = ok t
cell_text (some (int32 n)) = ok (number_text n)
cell_text (some (size n)) = ok (to_string n)
cell_text (some (time n)) = ok (to_string n)
cell_text none = throws database_error

abbrev cell_int32 : Option Value → Outcome ℕ
cell_int32 (some (int32 n)) = ok n
cell_int32 (some (text [])) = throws database_error
cell_int32 (some (text (c ∷ cs))) = read_digits 0 (c ∷ cs)
cell_int32 _ = throws database_error

-- A transaction has the tables as they were when it began, and as it sees them.
abbrev pub executed :
    Tables → Outcome (Tables × List (Dict Value)) → Outcome ((Tables × Tables) × List (Dict Value))
executed before (ok (db, result)) = ok ((before, db), result)
executed before (throws x) = throws x

abbrev pub table_server : PostgresLib
table_server = record {
  Connection = ℕ;
  Server = Tables;
  Work = Tables × Tables;
  Row = Dict Value;
  begin = λ db c. ok (db, db);
  exec_params = λ w statement values. executed w.0 (run w.1 (lookup statement statements) values);
  commit = λ w. ok w.1;
  abort = λ w. w.0;
  field_text = λ row c. cell_text (lookup c row);
  field_int32 = λ row c. cell_int32 (lookup c row);
  rows = table_rows;
  seen = λ w. table_rows w.1;
  original = λ w. table_rows w.0;
}

-- A statement that returns has run, and keeps the tables to go back to.
pub executed_lem :
    (before : Tables) (m : Outcome (Tables × List (Dict Value))) (w' : Tables × Tables)
    (result : List (Dict Value))
    → executed before m ≡ ok (w', result)
    → (before ≡ w'.0) × (m ≡ ok (w'.1, result))
executed_lem before (ok (db, r)) w' result h = (cc, cc)
executed_lem before (throws x) w' result h = cc

-- A row that was added in a transaction is gone after its rollback, and a number can be read as text.
rolls_back :
    (db : Tables) (c : ℕ) (values : List Value) (w : Tables × Tables) (result : List (Dict Value))
    → table_server.exec_params (db, db) (insert_into chat_table) values ≡ ok (w, result)
    → table_server.abort w ≡ db
rolls_back db c values w result h = sym (executed_lem db _ w result h).0

reads_numbers : cell_text (some (int32 12)) ≡ ok (codes "12")
unfolding to_string
reads_numbers = refl

reads_digits : cell_int32 (some (text (codes "42"))) ≡ ok 42
reads_digits = refl

pub finds_insertion : (t : Table) → lookup (insert_into t) statements ≡ some (insertion t)
unfolding lookup insert_into select_where select_recent same
finds_insertion message_table = refl
finds_insertion chat_table = refl
finds_insertion user_table = refl

pub finds_search : (t : Table) → lookup (select_where t) statements ≡ some (search t)
unfolding lookup insert_into select_where select_recent same
finds_search message_table = refl
finds_search chat_table = refl
finds_search user_table = refl

pub finds_recent_search : (t : Table) → lookup (select_recent t) statements ≡ some (recent_search t)
unfolding lookup insert_into select_where select_recent same
finds_recent_search message_table = refl
finds_recent_search chat_table = refl
finds_recent_search user_table = refl
