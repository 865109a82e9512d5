-- ===== src/Listener/Opening.antt =====
-- The constructors of the listeners, the one that the build leaves out included: open, set the
-- option, bind and listen, where each error code ends the construction.
pub mod Errors
use svitock.Base.{
  Option, none, some, [], ◌++◌, Bytes, codes, Outcome, ok, throws, ◌>>=◌, runtime_error,
}
use svitock.Extern.Acceptor.{AcceptorLib}

-- `if (ec) throw std::runtime_error(…)`, with what is written before the message of the code.
abbrev pub check : {A : Type 0} → Bytes → A × Option Bytes → Outcome A
check before (a, none) = ok a
check before (a, some message) = throws (runtime_error (before ++ message))

module _ (lib : AcceptorLib) where
  open lib use {Acceptor, Endpoint, System, fresh, open_for, reuse_address, bind, listen}

  -- network/websocket.
  unfoldable pub open_websocket : System → Endpoint → Outcome Acceptor
  open_websocket system endpoint = do
    opened ← check [] (open_for (fresh system) endpoint)
    reusing ← check [] (reuse_address opened)
    bound ← check [] (bind reusing endpoint)
    check [] (listen bound)

  -- network/http.
  unfoldable pub open_http : System → Endpoint → Outcome Acceptor
  open_http system endpoint = do
    opened ← check [] (open_for (fresh system) endpoint)
    reusing ← check [] (reuse_address opened)
    bound ← check [] (bind reusing endpoint)
    check [] (listen bound)

  -- websocket, which the build leaves out.
  unfoldable pub open_legacy : System → Endpoint → Outcome Acceptor
  open_legacy system endpoint = do
    opened ← check (codes "acceptor open failed: ") (open_for (fresh system) endpoint)
    reusing ← check (codes "acceptor set_option failed: ") (reuse_address opened)
    bound ← check (codes "acceptor bind failed: ") (bind reusing endpoint)
    check (codes "acceptor listen failed: ") (listen bound)
