-- ===== src/Listener.antt =====
-- infrastructure/network/websocket/websocket_listener: connections become sessions. The acceptor is
-- an environment that completes the outstanding `async_accept`.
pub mod Ids
pub mod Opening
use svitock.Base.{
  ℕ, ◌+◌, ◌-◌, ◌%◌, ◌^◌, Bool, true, false, List, [], ◌∷◌, ◌++◌, Bytes, if◌then◌else◌,
}
use svitock.Base.Digits.{to_string}
use svitock.Session.{WebSocketSession, make_session, run_session}

-- `sessions` are the sessions it has made, in order; `accepts` counts the outstanding accepts.
pub record WebSocketListener : Type 0 where
  pub next_session_id : ℕ
  pub sessions : List WebSocketSession
  pub accepts : ℕ

unfoldable pub make_listener : WebSocketListener
make_listener = record { next_session_id = 0; sessions = []; accepts = 0 }

unfoldable pub do_accept : WebSocketListener → WebSocketListener
do_accept l = record l { accepts = l.accepts + 1 }

-- `++nextSessionId_` of an unsigned 64-bit number.
unfoldable pub on_accept : WebSocketListener → Bool → WebSocketListener
unfolding do_accept
on_accept l failed =
    let id = (l.next_session_id + 1) % 2 ^ 64 in
    let made = record l {
      next_session_id = id;
      sessions = l.sessions ++ run_session (make_session (to_string id)) ∷ [];
    } in
    if failed then do_accept l else do_accept made

-- The outstanding accepts that complete, each with an error or without one.
unfoldable pub completions : WebSocketListener → List Bool → WebSocketListener
completions l [] = l
completions l (failed ∷ rest) =
    completions (on_accept (record l { accepts = l.accepts - 1 }) failed) rest
