-- ===== src/Legacy/Listener.antt =====
-- infrastructure/websocket/websocket_listener: connections become old sessions.
use svitock.Base.{ℕ, ◌+◌, Bool, List, [], ◌∷◌, ◌++◌, if◌then◌else◌}
use svitock.Legacy.Session.{LegacyConnection, make_connection, run_connection}

-- `sessions` are the sessions it has made, in order; `accepts` counts the outstanding accepts.
pub record LegacyListener : Type 0 where
  pub sessions : List LegacyConnection
  pub accepts : ℕ

unfoldable pub make_listener : LegacyListener
make_listener = record { sessions = []; accepts = 0 }

unfoldable pub do_accept : LegacyListener → LegacyListener
do_accept l = record l { accepts = l.accepts + 1 }

-- The handler of an accept that has completed.
unfoldable pub on_accept : LegacyListener → Bool → LegacyListener
unfolding do_accept
on_accept l failed =
    if failed
    then do_accept l
    else do_accept (record l { sessions = l.sessions ++ run_connection make_connection ∷ [] })
