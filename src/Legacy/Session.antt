-- ===== src/Legacy/Session.antt =====
-- infrastructure/websocket/websocket_session: one connection of the server that the build leaves
-- out, on its strand. The socket is an environment, as for the session in use.
pub mod Writes
pub mod Closing
use svitock.Base.{
  ℕ, ◌+◌, Bool, true, false, List, [], ◌∷◌, ◌++◌, Bytes, Outcome, ok, throws, undefined_behaviour,
  ◌>>=◌, is_empty, if◌then◌else◌,
}
use svitock.Extern.Json.{JsonLib}
use svitock.Extern.Uuid.{UuidLib}
use svitock.Application.Ports.{MessageRepository}
use svitock.Session.{WriteEvent, sends, runs_task, completes}
use svitock.Legacy.{SessionManager, LegacyState, user_id_of, remove_session, dispatch_message}

-- `posted` are the tasks that wait on the strand, oldest first; `writing`, `reads` and `accepting` are
-- the outstanding operations; `delivered` is what was written without an error.
pub record LegacyConnection : Type 0 where
  pub user_id : Bytes
  pub write_queue : List Bytes
  pub posted : List Bytes
  pub writing : List Bytes
  pub delivered : List Bytes
  pub reads : ℕ
  pub accepting : ℕ

-- The constructor.
unfoldable pub make_connection : LegacyConnection
make_connection = record {
  user_id = [];
  write_queue = [];
  posted = [];
  writing = [];
  delivered = [];
  reads = 0;
  accepting = 0;
}

-- `run` starts the handshake. The options of the stream are left out.
unfoldable pub run_connection : LegacyConnection → LegacyConnection
run_connection s = record s { accepting = s.accepting + 1 }

unfoldable pub get_user_id : LegacyConnection → Bytes
get_user_id s = s.user_id

unfoldable pub set_user_id : LegacyConnection → Bytes → LegacyConnection
set_user_id s user_id = record s { user_id = user_id }

unfoldable pub do_read : LegacyConnection → LegacyConnection
do_read s = record s { reads = s.reads + 1 }

unfoldable pub on_accept : LegacyConnection → Bool → LegacyConnection
unfolding do_read
on_accept s failed = if failed then s else do_read s

-- `close()`, of a session with this user.
unfoldable pub close : SessionManager → Bytes → SessionManager
unfolding remove_session
close manager user_id = if is_empty user_id then manager else remove_session manager user_id

-- `sendText` posts a task to the strand.
unfoldable pub send_text : LegacyConnection → Bytes → LegacyConnection
send_text s message = record s { posted = s.posted ++ message ∷ [] }

unfoldable pub do_write : LegacyConnection → Outcome LegacyConnection
do_write s = elim s.write_queue [
  | [] ↦ throws undefined_behaviour
  | message ∷ rest ↦ ok (record s { writing = s.writing ++ message ∷ [] })
]

-- The task that `sendText` posted.
unfoldable pub run_task : LegacyConnection → Bytes → Outcome LegacyConnection
unfolding do_write
run_task s message =
    let s' = record s { write_queue = s.write_queue ++ message ∷ [] } in
    if is_empty s.write_queue then do_write s' else ok s'

unfoldable pub pop_front : LegacyConnection → Outcome LegacyConnection
pop_front s = elim s.write_queue [
  | [] ↦ throws undefined_behaviour
  | message ∷ rest ↦ ok (record s { write_queue = rest })
]

unfoldable pub on_write :
    SessionManager × LegacyConnection → Bool → Outcome (SessionManager × LegacyConnection)
unfolding close do_write pop_front
on_write (manager, s) failed = if failed then ok (close manager s.user_id, s) else (do
  s' ← pop_front s
  s'' ← if is_empty s'.write_queue then ok s' else do_write s'
  ok (manager, s''))

-- What may happen to the writing half: as for the session in use, or the user changes.
pub data LegacyEvent : Type 0 where
  writes : WriteEvent → LegacyEvent
  becomes : Bytes → LegacyEvent

-- The strand runs its oldest task; the socket completes its oldest write.
unfoldable pub write_step :
    SessionManager × LegacyConnection → WriteEvent → Outcome (SessionManager × LegacyConnection)
unfolding send_text run_task on_write
write_step (manager, s) (sends message) = ok (manager, send_text s message)
write_step (manager, s) runs_task = elim s.posted [
  | [] ↦ ok (manager, s)
  | message ∷ rest ↦ do s' ← run_task (record s { posted = rest }) message; ok (manager, s')
]
write_step (manager, s) (completes failed) = elim s.writing [
  | [] ↦ ok (manager, s)
  | message ∷ rest ↦
      on_write
        (
          manager,
          record s {
            writing = rest;
            delivered = if failed then s.delivered else s.delivered ++ message ∷ [];
          },
        )
        failed
]

unfoldable pub legacy_step :
    SessionManager × LegacyConnection → LegacyEvent → Outcome (SessionManager × LegacyConnection)
unfolding write_step set_user_id
legacy_step (manager, s) (writes e) = write_step (manager, s) e
legacy_step (manager, s) (becomes user_id) = ok (manager, set_user_id s user_id)

unfoldable pub legacy_steps :
    SessionManager × LegacyConnection
    → List LegacyEvent
    → Outcome (SessionManager × LegacyConnection)
legacy_steps c [] = ok c
legacy_steps c (e ∷ es) = do c' ← legacy_step c e; legacy_steps c' es

-- With what a read completes.
pub data LegacyRead : Type 0 where
  closed failed : LegacyRead
  message : Bytes → LegacyRead

module _ (json : JsonLib) (uuid : UuidLib) (messages : MessageRepository uuid.Uuid) where
  -- `onRead` of the session at an address, with the number of its outstanding reads.
  unfoldable pub on_read :
      uuid.Uuid → ℕ → LegacyState messages × ℕ → ℕ → LegacyRead → Outcome (LegacyState messages × ℕ)
  unfolding close
  on_read id now (state, reads) self (message raw) = do
    state' ← dispatch_message json uuid messages id now state self raw
    ok (state', reads + 1)
  on_read id now (state, reads) self result = ok (
    record state { manager = close state.manager (user_id_of json uuid messages state self) },
    reads,
  )
