-- ===== src/Tests/Answers.antt =====
-- The small server follows the documented behaviour.
use mathlib.Core.List.Permᴰ
use svitock.Base.{
  ◌≡◌, refl, sym, ap, ◌∙◌, false, Option, some, none, List, [], ◌∷◌, ◌++◌, map, take, All, Bytes,
  same, ok, arith, Bool-cases, inl, inr, subst, if◌then◌else◌,
}
use svitock.Base.Dict.{Dict, lookup}
use svitock.Extern.Postgres.{
  IsPostgres, Value, text, size, Table, message_table, chat_table, user_table, name_of, columns_of,
  key_of, new_row, where_text, row_time, IsDescending, int32, time, ReadsAs, Gives, GivesAll,
}
use svitock.Tests.Tables.{
  Tables, table_rows, insertion, search, recent_search, add_row, name_taken, run, table_server,
  finds_insertion, finds_search, finds_recent_search, executed_lem,
}

map-snoc :
    {A : Type 0} {B : Type 0} (f : A → B) (xs : List A) (x : A)
    → map f (xs ++ x ∷ []) ≡ map f xs ++ f x ∷ []
map-snoc f [] x = refl
map-snoc f (y ∷ ys) x = ap (◌∷◌ (f y)) (map-snoc f ys x)

ReadsAs-cell :
    (row : Dict Value) (c : Bytes) (o : Option Value)
    → lookup c row ≡ o
    → ReadsAs table_server row c o
ReadsAs-cell row c (some (text t)) h = rw h refl
ReadsAs-cell row c (some (int32 n)) h = rw h refl
ReadsAs-cell row c (some (size n)) h = tt
ReadsAs-cell row c (some (time n)) h = tt
ReadsAs-cell row c none h = tt

Gives-refl : (columns : List Bytes) (row : Dict Value) → Gives table_server columns row row
Gives-refl [] row = tt
Gives-refl (c ∷ cs) row = (ReadsAs-cell row c (lookup c row) refl, Gives-refl cs row)

GivesAll-refl :
    (columns : List Bytes) (rows : List (Dict Value)) → GivesAll table_server columns rows rows
GivesAll-refl columns [] = tt
GivesAll-refl columns (row ∷ rows) = (Gives-refl columns row, GivesAll-refl columns rows)

row_time-new : (t : Table) (values : List Value) → row_time (new_row (columns_of t) values 7) ≡ 7
unfolding lookup same
row_time-new message_table [] = refl
row_time-new message_table (a ∷ []) = refl
row_time-new message_table (a ∷ b ∷ []) = refl
row_time-new message_table (a ∷ b ∷ c ∷ []) = refl
row_time-new message_table (a ∷ b ∷ c ∷ d ∷ vs) = refl
row_time-new chat_table [] = refl
row_time-new chat_table (a ∷ []) = refl
row_time-new chat_table (a ∷ b ∷ vs) = refl
row_time-new user_table [] = refl
row_time-new user_table (a ∷ []) = refl
row_time-new user_table (a ∷ b ∷ []) = refl
row_time-new user_table (a ∷ b ∷ c ∷ vs) = refl

-- All times are the same.
abbrev IsLevel : List (Dict Value) → Type 0
IsLevel = All (λ row. row_time row ≡ 7)

where_text-IsLevel :
    (key t : Bytes) (rows : List (Dict Value)) → IsLevel rows → IsLevel (where_text key t rows)
where_text-IsLevel key t [] level = tt
where_text-IsLevel key t (row ∷ rows) level = ground (arith, where_text-IsLevel key t rows level.1)

table_rows-IsLevel :
    (t : Table) (rows : List (List Value))
    → IsLevel (map (λ values. new_row (columns_of t) values 7) rows)
table_rows-IsLevel t [] = tt
table_rows-IsLevel t (values ∷ rows) = (row_time-new t values, table_rows-IsLevel t rows)

IsLevel-IsDescending : (rows : List (Dict Value)) → IsLevel rows → IsDescending (map row_time rows)
IsLevel-IsDescending [] level = tt
IsLevel-IsDescending (r ∷ []) level = tt
IsLevel-IsDescending (r ∷ r' ∷ rows) (e, (e', level)) =
    (omega (arith, e, e'), IsLevel-IsDescending (r' ∷ rows) (e', level))

table_rows-add :
    (db : Tables) (table t : Table) (values : List Value)
    → table_rows (add_row db table values) t ≡ (
        if same (name_of t) (name_of table)
        then table_rows db t ++ new_row (columns_of table) values 7 ∷ []
        else table_rows db t)
unfolding same
table_rows-add db message_table message_table values = map-snoc _ (db message_table) values
table_rows-add db message_table chat_table values = refl
table_rows-add db message_table user_table values = refl
table_rows-add db chat_table message_table values = refl
table_rows-add db chat_table chat_table values = map-snoc _ (db chat_table) values
table_rows-add db chat_table user_table values = refl
table_rows-add db user_table message_table values = refl
table_rows-add db user_table chat_table values = refl
table_rows-add db user_table user_table values = map-snoc _ (db user_table) values

pub run-insertion :
    (w w' : Tables) (table : Table) (values : List Value) (result : List (Dict Value))
    → run w (some (insertion table)) values ≡ ok (w', result)
    → (name_taken w table values ≡ false) × (w' ≡ add_row w table values)
run-insertion w w' table values result h = elim (Bool-cases (name_taken w table values)) [
  | inl taken ↦ cc (rw taken at h)
  | inr free ↦ (free, cc (rw free at h))
]

pub table_server-IsPostgres : IsPostgres table_server
table_server-IsPostgres = record {
  seen-begin = λ db c w h table.
      let same_tables : (db, db) ≡ w = cc in
      (
        ap (λ v. table_rows v.1 table) (sym same_tables),
        ap (λ v. table_rows v.0 table) (sym same_tables),
      );
  original-exec_params = λ w w' statement values result known h table.
      ap (λ d. table_rows d table) (sym (executed_lem w.0 _ w' result h).0);
  rows-abort = λ w table. refl;
  rows-commit = λ w db h table.
      let same_tables : w.1 ≡ db = cc in ap (λ d. table_rows d table) (sym same_tables);
  insertion = λ w w' table values result sized h.
      let (kept, ran) = executed_lem w.0 _ w' result h in
      let (free, added) =
        run-insertion w.1 w'.1 table values result (rw (finds_insertion table) at ran) in
      (7, λ t. ap (λ d. table_rows d t) added ∙ table_rows-add w.1 table t values);
  search = λ w w' table t result h.
      let (kept, ran) = executed_lem w.0 _ w' result h in
      let ran' : run w.1 (some (search table)) (text t ∷ []) ≡ ok (w'.1, result) =
        rw (finds_search table) at ran in
      let found : where_text (key_of table) t (table_rows w.1 table) ≡ result = cc in
      (
        where_text (key_of table) t (table_rows w.1 table),
        Permᴰ.refl _,
        subst
            (GivesAll table_server (columns_of table)
              (where_text (key_of table) t (table_rows w.1 table)))
            found (GivesAll-refl (columns_of table) _),
      );
  recent_search = λ w w' table t limit result h.
      let (kept, ran) = executed_lem w.0 _ w' result h in
      let ran' : run w.1 (some (recent_search table)) (text t ∷ size limit ∷ [])
          ≡ ok (w'.1, result) =
        rw (finds_recent_search table) at ran in
      let found : take limit (where_text (key_of table) t (table_rows w.1 table)) ≡ result = cc in
      (
        where_text (key_of table) t (table_rows w.1 table),
        Permᴰ.refl _,
        IsLevel-IsDescending _
            (where_text-IsLevel (key_of table) t _ (table_rows-IsLevel table (w.1 table))),
        subst
            (GivesAll table_server (columns_of table)
              (take limit (where_text (key_of table) t (table_rows w.1 table))))
            found (GivesAll-refl (columns_of table) _),
      );
}
