-- ===== src/Extern/Acceptor.antt =====
-- boost::asio: addresses, and the calls of an acceptor that report an error code.
use svitock.Base.{ℕ, Option, Bytes, Outcome}

-- An acceptor holds what the calls so far have left of the operating system, such as the ports that
-- are bound.
pub record AcceptorLib : Type 1 where
  pub System : Type 0
  pub Acceptor : Type 0
  pub Address : Type 0
  pub Endpoint : Type 0
  -- `make_address(host)` throws on text that is no address.
  pub make_address : Bytes → Outcome Address
  pub endpoint : Address → ℕ → Endpoint
  -- `acceptor(ioContext)`, and each call with the message of its error code, if there is one.
  pub fresh : System → Acceptor
  pub system : Acceptor → System
  pub open_for : Acceptor → Endpoint → Acceptor × Option Bytes
  pub reuse_address : Acceptor → Acceptor × Option Bytes
  pub bind : Acceptor → Endpoint → Acceptor × Option Bytes
  pub listen : Acceptor → Acceptor × Option Bytes
