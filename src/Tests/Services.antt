-- ===== src/Tests/Services.antt =====
-- The configuration, the accounts, the connections and the server at concrete inputs.
use svitock.Base.{
  ℕ, ◌≡◌, ◌≢◌, ◌%◌, ◌^◌, refl, ◌==◌, true, false, Option, none, some, List, [], ◌∷◌, Bytes, codes,
  same, get_elem?, ok, ◌>>=◌, Ensures, if◌then◌else◌, arith, same_refl, subst,
}
use svitock.Base.Digits.{to_string}
use svitock.Domain.{User}
use svitock.Application.Ports.{UserRepository, KeepsUsers}
use svitock.Application.{create_if_absent, register_user}
use svitock.Config.{ServerConfig}
use svitock.Base.Digits.{to_string}
use svitock.Database.{PostgresPool, make_pool, acquire, acquire_times}
use svitock.Database.Turns.{acquire-make_pool}
use svitock.Listener.{make_listener, completions, on_accept, do_accept}
use svitock.Listener.Ids.{completions-distinct}
use svitock.Server.{make_server}
use svitock.Server.Lifecycle.{runs, halts, server_calls, IsConsistent, server_calls-make_server}
use svitock.Session.{WebSocketSession, make_session, run_session}
use svitock.Legacy.{LegacyState, dispatch_message}
use svitock.Legacy.Senders.{StoresOwn, dispatch_message-StoresOwn}
use svitock.Tests.Json.{small_json}
use svitock.Tests.Platform.{small_platform, small_uuid, memory_repository}

-- A repository of users in memory, the newest first.
abbrev find_user : Bytes → List (User Bytes) → Option (User Bytes)
find_user name [] = none
find_user name (u ∷ us) = if same u.username name then some u else find_user name us

abbrev memory_users : UserRepository Bytes
memory_users = record {
  State = List (User Bytes);
  find_by_username = λ s name. ok (s, find_user name s);
  create = λ s u. ok (u ∷ s, true);
}

find-new : (s : List (User Bytes)) (u : User Bytes) → find_user u.username (u ∷ s) ≡ some u
find-new s u = rw (same_refl u.username) refl

memory_users-KeepsUsers : KeepsUsers memory_users
memory_users-KeepsUsers = record {
  find-create = λ s s' u h.
      let stored : u ∷ s ≡ s' = cc in
      (
        s',
        u,
        subst (λ t. memory_users.find_by_username t u.username ≡ ok (t, some u)) stored
            (rw (find-new s u) refl),
        refl,
      );
}

abbrev ann : User Bytes
ann = record { id = codes "1"; username = codes "ann"; password_hash = codes "x"; created_at = 5 }

ann_registered :
    register_user memory_users [] (codes "1") 5 (codes "ann") (codes "x") ≡ ok (ann ∷ [], true)
unfolding register_user create_if_absent
ann_registered = refl

-- A pool of three connections, which are numbers.
abbrev three : PostgresPool ℕ
three = record { pool = 0 ∷ 1 ∷ 2 ∷ []; next = 0 }

three_made : make_pool (λ i. ok i) (λ c. true) 3 ≡ ok three
unfolding make_pool
three_made = refl

acquire-make_pool_example :
    (c : ℕ) × (p' : PostgresPool ℕ) × (get_elem? (0 ∷ 1 ∷ 2 ∷ []) (4 % 2 ^ 64 % 3) ≡ some c)
    × ((acquire_times 4 three >>= acquire) ≡ ok (p', c))
acquire-make_pool_example = acquire-make_pool (λ i. ok i) (λ c. true) 3 4 three three_made

abbrev started : ℕ → WebSocketSession
started n = run_session (make_session (to_string n))

second_session :
    get_elem? (completions make_listener (false ∷ true ∷ false ∷ [])).sessions 1 ≡ some (started 2)
unfolding completions on_accept do_accept make_listener
second_session = refl

first_session :
    get_elem? (completions make_listener (false ∷ true ∷ false ∷ [])).sessions 0 ≡ some (started 1)
unfolding completions on_accept do_accept make_listener
first_session = refl

not_same_place : ◌≢◌ {A = ℕ} 0 1
not_same_place h = omega (arith, h)

-- The second of three accepts fails.
completions-distinct_example : (started 1).session_id ≢ (started 2).session_id
completions-distinct_example =
    completions-distinct (false ∷ true ∷ false ∷ []) 0 1 (started 1) (started 2) (omega arith)
      first_session second_session not_same_place

abbrev small_config : ServerConfig
small_config = record {
  host = codes "0.0.0.0";
  ws_port = 8080;
  http_port = 8081;
  network_threads = 4;
  actor_threads = 8;
  storage_threads = 4;
  mailbox_capacity = 2;
}

server_calls-make_server_example : IsConsistent small_platform small_config (
    server_calls small_platform
      (make_server small_platform small_config)
      (runs ∷ runs ∷ halts ∷ runs ∷ []))
server_calls-make_server_example =
    server_calls-make_server small_platform small_config (runs ∷ runs ∷ halts ∷ runs ∷ [])

abbrev pub lobby : LegacyState memory_repository
lobby = record {
  manager = (codes "ua", 0) ∷ [];
  objects = λ a. if a == 0 then some (record { user_id = codes "ua"; sent = [] }) else none;
  stored = [];
}

dispatch_message-StoresOwn_example :
    Ensures (StoresOwn small_json small_uuid memory_repository lobby 0) (
      dispatch_message small_json small_uuid memory_repository (codes "m1") 7 lobby 0 (
        codes
          "{\"type\":\"send_message\",\"chat_id\":\"uc\",\"to_user_id\":\"\",\"payload\":{\"text\":\"hi\"}}"))
dispatch_message-StoresOwn_example =
    dispatch_message-StoresOwn small_json small_uuid memory_repository lobby 0 (codes "m1") 7 (
      codes
        "{\"type\":\"send_message\",\"chat_id\":\"uc\",\"to_user_id\":\"\",\"payload\":{\"text\":\"hi\"}}")
