-- ===== src/Session.antt =====
-- infrastructure/network/websocket/websocket_session: one connection, whose handlers run one after
-- the other on its strand. The socket is an environment: it completes the operations that are
-- outstanding, with an error code or without one.
pub mod Writes
pub mod Failure
pub mod Flush
use svitock.Base.{
  ℕ, ◌+◌, ◌-◌, Bool, true, false, List, [], ◌∷◌, ◌++◌, Bytes, Outcome, ok, throws,
  undefined_behaviour, ◌>>=◌, is_empty, if◌then◌else◌,
}
use svitock.Base.Dict.{Dict, insert, erase}

-- Besides the members: `posted` are the tasks that wait on the strand, oldest first; `writing`,
-- `reads` and `accepting` are the `async_write`, `async_read` and `async_accept` operations that are
-- outstanding; `delivered` is what was written without an error.
pub record WebSocketSession : Type 0 where
  pub session_id : Bytes
  pub write_queue : List Bytes
  pub posted : List Bytes
  pub writing : List Bytes
  pub delivered : List Bytes
  pub reads : ℕ
  pub accepting : ℕ

-- The constructor.
unfoldable pub make_session : Bytes → WebSocketSession
make_session session_id = record {
  session_id = session_id;
  write_queue = [];
  posted = [];
  writing = [];
  delivered = [];
  reads = 0;
  accepting = 0;
}

-- `run` starts the handshake. The options of the stream are left out.
unfoldable pub run_session : WebSocketSession → WebSocketSession
run_session s = record s { accepting = s.accepting + 1 }

-- `SessionActor::transports_`, from session ids to the addresses behind the weak pointers.
abbrev pub Transports : Type 0
Transports = Dict ℕ

unfoldable pub bind_transport : Bytes → ℕ → Transports → Transports
bind_transport session_id address transports = insert session_id address transports

unfoldable pub unbind_transport : Bytes → Transports → Transports
unbind_transport session_id transports = erase session_id transports

unfoldable pub do_read : WebSocketSession → WebSocketSession
do_read s = record s { reads = s.reads + 1 }

-- `onAccept` of the session at an address; `failed` says that there is an error code.
unfoldable pub on_accept : ℕ → Transports × WebSocketSession → Bool → Transports × WebSocketSession
on_accept address (transports, s) failed =
    if failed then (transports, s) else (bind_transport s.session_id address transports, do_read s)

-- `send` posts a task to the strand.
unfoldable pub send : WebSocketSession → Bytes → WebSocketSession
send s payload = record s { posted = s.posted ++ payload ∷ [] }

-- `async_write` of the front of the queue.
unfoldable pub do_write : WebSocketSession → Outcome WebSocketSession
do_write s = elim s.write_queue [
  | [] ↦ throws undefined_behaviour
  | payload ∷ rest ↦ ok (record s { writing = s.writing ++ payload ∷ [] })
]

-- The task that `send` posted.
unfoldable pub run_task : WebSocketSession → Bytes → Outcome WebSocketSession
unfolding do_write
run_task s payload =
    let s' = record s { write_queue = s.write_queue ++ payload ∷ [] } in
    if is_empty s.write_queue then do_write s' else ok s'

unfoldable pub pop_front : WebSocketSession → Outcome WebSocketSession
pop_front s = elim s.write_queue [
  | [] ↦ throws undefined_behaviour
  | payload ∷ rest ↦ ok (record s { write_queue = rest })
]

unfoldable pub on_write :
    Transports × WebSocketSession → Bool → Outcome (Transports × WebSocketSession)
unfolding do_write pop_front unbind_transport
on_write (transports, s) failed =
    if failed then ok (unbind_transport s.session_id transports, s) else (do
      s' ← pop_front s
      s'' ← if is_empty s'.write_queue then ok s' else do_write s'
      ok (transports, s''))

-- What may happen to the writing half of a session.
pub data WriteEvent : Type 0 where
  sends : Bytes → WriteEvent
  runs_task : WriteEvent
  completes : Bool → WriteEvent

-- The strand runs its oldest task; the socket completes its oldest write. Where there is none,
-- nothing happens.
unfoldable pub write_step :
    Transports × WebSocketSession → WriteEvent → Outcome (Transports × WebSocketSession)
unfolding send run_task on_write
write_step (transports, s) (sends payload) = ok (transports, send s payload)
write_step (transports, s) runs_task = elim s.posted [
  | [] ↦ ok (transports, s)
  | payload ∷ rest ↦ do s' ← run_task (record s { posted = rest }) payload; ok (transports, s')
]
write_step (transports, s) (completes failed) = elim s.writing [
  | [] ↦ ok (transports, s)
  | payload ∷ rest ↦
      on_write
        (
          transports,
          record s {
            writing = rest;
            delivered = if failed then s.delivered else s.delivered ++ payload ∷ [];
          },
        )
        failed
]

unfoldable pub write_steps :
    Transports × WebSocketSession → List WriteEvent → Outcome (Transports × WebSocketSession)
write_steps c [] = ok c
write_steps c (e ∷ es) = do c' ← write_step c e; write_steps c' es
