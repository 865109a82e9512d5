-- ===== src/Tests/Presentation.antt =====
-- The transfer object and the controllers at concrete inputs.
use svitock.Base.{
  ◌≡◌, refl, true, false, none, [], ◌∷◌, codes, same, is_empty, ok, throws, Exception,
  if◌then◌else◌,
}
use svitock.Base.Dict.{lookup}
use svitock.Extern.Postgres.{text, name_of, user_table, insert_into, select_where, select_recent}
use svitock.Application.{register_user, create_if_absent, login_user}
use svitock.Database.{acquire}
use svitock.Postgres.{Store}
use svitock.Postgres.Users.{create, find_by_username, first_user, postgres_users}
use svitock.Presentation.{
  MessageEventDto, to_json, from_json, register_user_by_password, login_user_by_password,
}
use svitock.Presentation.Transfer.{from_json-to_json}
use svitock.Presentation.Accounts.{
  login_user_by_password-register_user_by_password, create_if_absent-create_if_absent,
}
use svitock.Tests.Json.{small_json, small_json-IsJson}
use svitock.Tests.Platform.{small_uuid, small_uuid-IsUuid}
use svitock.Tests.Postgres.{
  store, empty_tables, table_server-HasUniqueNames, table_server-IsReachable,
}
use svitock.Tests.Tables.{Tables, table_server}
use svitock.Tests.Answers.{table_server-IsPostgres}

abbrev event : MessageEventDto small_json
event = record {
  type = codes "typing";
  chat_id = codes "c";
  payload = small_json.text (codes "on");
}

from_json-to_json_example : from_json small_json (to_json small_json event) ≡ ok event
from_json-to_json_example = from_json-to_json small_json small_json-IsJson event

abbrev with_ann : Tables
with_ann t =
    if same (name_of t) (name_of user_table)
    then (text (codes "u1") ∷ text (codes "ann") ∷ text (codes "x") ∷ []) ∷ []
    else []

ann_registered :
    register_user_by_password
      (postgres_users table_server small_uuid 9)
      (store 0 empty_tables)
      (codes "1")
      5
      (codes "ann")
      (codes "x")
    ≡ ok (store 2 with_ann, true)
unfolding register_user_by_password register_user create_if_absent create find_by_username
    first_user acquire lookup insert_into select_where select_recent same
ann_registered = refl

login_user_by_password-register_user_by_password_example :
    (s'' : Store table_server) × (login_user_by_password
        (postgres_users table_server small_uuid 9)
        (store 2 with_ann)
        (codes "ann")
        (codes "y")
      ≡ ok (s'', same (codes "x") (codes "y")))
    × (register_user_by_password
          (postgres_users table_server small_uuid 9)
          (store 2 with_ann)
          (codes "2")
          6
          (codes "ann")
          (codes "y")
        ≡ ok (if is_empty (codes "y") then store 2 with_ann else s'', false))
login_user_by_password-register_user_by_password_example =
    login_user_by_password-register_user_by_password table_server small_uuid table_server-IsPostgres
      table_server-HasUniqueNames 9 (store 0 empty_tables) (store 2 with_ann) (codes "1")
      (codes "2") 5 6 (codes "ann") (codes "x") (codes "y") small_uuid-IsUuid
      table_server-IsReachable ann_registered

ann_created :
    create_if_absent
      (postgres_users table_server small_uuid 9)
      (codes "1")
      5
      (codes "ann")
      (codes "x")
      (store 2 empty_tables)
      none
    ≡ ok (store 3 with_ann, true)
unfolding create_if_absent create acquire lookup insert_into select_where select_recent same
ann_created = refl

searches_first :
    find_by_username table_server small_uuid 9 (store 0 empty_tables) (codes "ann")
    ≡ ok (store 1 empty_tables, none)
unfolding find_by_username first_user acquire lookup insert_into select_where select_recent same
searches_first = refl

searches_second :
    find_by_username table_server small_uuid 9 (store 1 empty_tables) (codes "ann")
    ≡ ok (store 2 empty_tables, none)
unfolding find_by_username first_user acquire lookup insert_into select_where select_recent same
searches_second = refl

create_if_absent-create_if_absent_example :
    ((x : Exception) × (create_if_absent
          (postgres_users table_server small_uuid 9)
          (codes "2")
          6
          (codes "ann")
          (codes "y")
          (store 3 with_ann)
          none
        ≡ throws x))
    × ((s4 : Store table_server) × (login_user
            (postgres_users table_server small_uuid 9)
            (store 3 with_ann)
            (codes "ann")
            (codes "y")
          ≡ ok (s4, same (codes "x") (codes "y"))))
create_if_absent-create_if_absent_example =
    create_if_absent-create_if_absent table_server small_uuid table_server-IsPostgres
      table_server-HasUniqueNames 9 (store 0 empty_tables) (store 1 empty_tables)
      (store 2 empty_tables) (store 3 with_ann) none none (codes "1") (codes "2") 5 6 (codes "ann")
      (codes "x") (codes "y") small_uuid-IsUuid table_server-IsReachable searches_first
      searches_second ann_created
