-- ===== src/Tests/Postgres.antt =====
-- The repositories over a small server.
use svitock.Base.{
  ℕ, ◌+◌, ◌≡◌, refl, true, false, List, [], ◌∷◌, Option, some, ◌++◌, map, undefined_behaviour,
  Bytes, codes, same, is_empty, ok, throws, not, if◌then◌else◌,
}
use svitock.Base.Dict.{lookup}
use svitock.Extern.Postgres.{
  Value, text, int32, size, message_table, chat_table, user_table, name_of, insert_into,
  select_recent, select_where, where_text,
}
use svitock.Domain.{Message, Chat, group}
use svitock.Application
use svitock.Database.{acquire}
use svitock.Postgres.{Store}
use svitock.Postgres.Messages.{create, get_by_chat, read_message, read_messages, postgres_messages}
use svitock.Postgres.Messages.Sent.{Draft, draft_of, accepted, send_all, get_chat_history-send_all}
use svitock.Postgres.Messages.History.{statement, Holds, Shows, get_by_chat-Fails}
use svitock.Postgres.Calls.{Fails}
use svitock.Postgres.Users.{postgres_users}
use svitock.Postgres.Users.Registered.{HasUniqueNames, IsReachable, postgres_users-KeepsUsers}
use svitock.Application.Ports.{KeepsUsers}
use svitock.Postgres.Chats
use svitock.Postgres.Chats.Found.{find_by_id-create}
use svitock.Tests.Platform.{small_uuid, small_uuid-IsUuid}
use svitock.Tests.Tables.{
  Tables, finds_insertion, finds_search, table_rows, executed_lem, table_server,
}
use svitock.Tests.Answers.{run-insertion, table_server-IsPostgres}

abbrev pub empty_tables : Tables
empty_tables t = []

abbrev with_messages : List (List Value) → Tables
with_messages rows message_table = rows
with_messages rows t = []

abbrev pub store : ℕ → Tables → Store table_server
store n db = record { pool = record { pool = 4 ∷ 5 ∷ []; next = n }; server = db }

abbrev pub clock : ℕ → ℕ
clock i = 100 + i

abbrev hello : Draft table_server small_uuid
hello = record { id = codes "1"; chat_id = codes "c"; sender_id = codes "a"; content = codes "hi" }

abbrev silence : Draft table_server small_uuid
silence = record { id = codes "2"; chat_id = codes "c"; sender_id = codes "a"; content = [] }

abbrev pub tables_after : Tables
tables_after t =
    if same (name_of t) (name_of message_table)
    then (text (codes "u1") ∷ text (codes "uc") ∷ text (codes "ua") ∷ text (codes "hi") ∷ []) ∷ []
    else []

sends :
    send_all table_server small_uuid clock clock 0 (store 0 empty_tables) (hello ∷ silence ∷ [])
    ≡ ok (store 1 tables_after, true ∷ false ∷ [])
unfolding Application.send_message create acquire lookup insert_into select_recent select_where same
sends = refl

reads :
    Application.get_chat_history
      (postgres_messages table_server small_uuid clock)
      (store 1 tables_after)
      (codes "c")
      50
    ≡ ok (
      store 2 tables_after,
      record {
        id = codes "1";
        chat_id = codes "c";
        sender_id = codes "a";
        content = codes "hi";
        created_at = 100;
      }
          ∷ [],
    )
unfolding Application.get_chat_history get_by_chat read_message read_messages acquire lookup
    insert_into select_recent select_where same
reads = refl

get_chat_history-send_all_example :
    (true ∷ false ∷ [] ≡ map (λ d. not (is_empty d.content)) (hello ∷ silence ∷ []))
    × ((added : List (Message Bytes)) × (map (draft_of table_server small_uuid) added
          ≡ accepted table_server small_uuid (hello ∷ silence ∷ []))
        × Holds table_server small_uuid (store 2 tables_after) ([] ++ added)
        × Shows table_server small_uuid ([] ++ added) clock (codes "c") 50 (
            record {
              id = codes "1";
              chat_id = codes "c";
              sender_id = codes "a";
              content = codes "hi";
              created_at = 100;
            }
            ∷ []))
get_chat_history-send_all_example =
    get_chat_history-send_all table_server small_uuid table_server-IsPostgres clock clock
      (store 0 empty_tables) (store 1 tables_after) (store 2 tables_after) [] (hello ∷ silence ∷ [])
      (true ∷ false ∷ []) (codes "c") 50 _ small_uuid-IsUuid refl sends reads

abbrev broken_store : Store table_server
broken_store = record { pool = record { pool = []; next = 0 }; server = empty_tables }

fails :
    get_by_chat table_server small_uuid clock broken_store (codes "c") 50
    ≡ throws undefined_behaviour
unfolding get_by_chat acquire
fails = refl

get_by_chat-Fails_example :
    Fails table_server-IsPostgres broken_store
      (statement table_server small_uuid)
      (text (small_uuid.to_string (codes "c")) ∷ size 50 ∷ [])
      undefined_behaviour
get_by_chat-Fails_example =
    get_by_chat-Fails table_server small_uuid table_server-IsPostgres clock broken_store []
      (codes "c") 50 undefined_behaviour small_uuid-IsUuid refl fails

nothing_matches : {A : Type 0} (xs : List A) → not (is_empty xs) ≡ false → xs ≡ []
nothing_matches [] h = refl
nothing_matches (x ∷ xs) h = cc

pub table_server-HasUniqueNames : HasUniqueNames table_server
table_server-HasUniqueNames w w' id name hash result h =
    let (kept, ran) = executed_lem w.0 _ w' result h in
    let (free, added) =
      run-insertion w.1 w'.1 user_table (text id ∷ text name ∷ text hash ∷ []) result
        (rw (finds_insertion user_table) at ran) in
    nothing_matches _ free

pub table_server-IsReachable : IsReachable table_server
table_server-IsReachable = record {
  begins = λ db c. ((db, db), refl);
  searches = λ w t row rows found. (
    w,
    where_text (codes "username") t (table_rows w.1 user_table),
    rw (finds_search user_table) refl,
  );
}

postgres_users-KeepsUsers_example : KeepsUsers (postgres_users table_server small_uuid 9)
postgres_users-KeepsUsers_example =
    postgres_users-KeepsUsers table_server small_uuid table_server-IsPostgres
      table_server-HasUniqueNames 9 small_uuid-IsUuid table_server-IsReachable

abbrev team : Chat Bytes
team = record { id = codes "t"; type = group; created_at = 3 }

abbrev tables_with_chat : Tables
tables_with_chat t =
    if same (name_of t) (name_of chat_table) then (text (codes "ut") ∷ int32 1 ∷ []) ∷ [] else []

chat_created :
    Chats.create table_server small_uuid (store 0 empty_tables) team
    ≡ ok (store 1 tables_with_chat, true)
unfolding Chats.create Chats.number_of_type acquire lookup insert_into select_recent select_where
    same
chat_created = refl

chat_found :
    Chats.find_by_id table_server small_uuid 8 (store 1 tables_with_chat) (codes "t")
    ≡ ok (store 2 tables_with_chat, some (record team { created_at = 8 }))
unfolding Chats.find_by_id Chats.first_chat Chats.type_of_number acquire lookup insert_into
    select_recent select_where same
chat_found = refl

find_by_id-create_example :
    ◌≡◌ {A = Option (Chat Bytes)}
      (some (record team { created_at = 8 }))
      (some (record team { created_at = 8 }))
find_by_id-create_example =
    find_by_id-create table_server small_uuid 8 (store 0 empty_tables) (store 1 tables_with_chat)
      (store 2 tables_with_chat) team _ table_server-IsPostgres small_uuid-IsUuid tt refl
      chat_created chat_found
