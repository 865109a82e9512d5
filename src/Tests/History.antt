-- ===== src/Tests/History.antt =====
-- The history of a chat, over HTTP and a small server.
use svitock.Base.{refl, [], ◌∷◌, Bytes, codes, arith, same}
use svitock.Base.Dict.{lookup}
use svitock.Domain.{Message}
use svitock.Http.{TokenService, route}
use svitock.Http.History.{history_request, Answers, route-Answers}
use svitock.Postgres.Messages.{postgres_messages}
use svitock.Postgres.Messages.History.{Holds}
use svitock.Tests.Json.{small_json}
use svitock.Tests.Platform.{small_sha1, small_uuid, small_uuid-IsUuid}
use svitock.Tests.Tables.{table_server}
use svitock.Tests.Answers.{table_server-IsPostgres}
use svitock.Tests.Postgres.{store, clock, tables_after}

abbrev service : TokenService
service = record { sha1 = small_sha1; secret = codes "s"; now = 9 }

abbrev hello : Message Bytes
hello = record {
  id = codes "1";
  chat_id = codes "c";
  sender_id = codes "a";
  content = codes "hi";
  created_at = 7;
}

holds : Holds table_server small_uuid (store 1 tables_after) (hello ∷ [])
unfolding same lookup
holds = refl

route-Answers_example :
    Answers small_json small_uuid table_server table_server-IsPostgres clock
      (store 1 tables_after)
      (hello ∷ [])
      (codes "c")
      (route small_json small_uuid
        (postgres_messages table_server small_uuid clock)
        service
        (store 1 tables_after)
        (history_request small_json small_uuid (codes "c") [] []))
route-Answers_example =
    route-Answers small_json small_uuid table_server table_server-IsPostgres clock service
      (store 1 tables_after) (hello ∷ []) (codes "c") [] [] small_uuid-IsUuid (omega arith) holds
