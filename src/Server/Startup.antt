-- ===== src/Server/Startup.antt =====
-- main, with the constructor of the server: from the configuration to the end of the process. What
-- the threads do while main waits for a signal is an argument.
pub mod Exit
use svitock.Base.{
  ℕ, Bool, true, false, Option, none, some, [], ◌++◌, Bytes, codes, Outcome, Exception, ok, throws,
  ◌>>=◌,
}
use svitock.Base.Digits.{to_string}
use svitock.Extern.Acceptor.{AcceptorLib}
use svitock.Extern.Yaml.{YamlLib}
use svitock.Actor.Payload.{ActorType}
use svitock.Actor.System.{Actor}
use svitock.Listener.{WebSocketListener}
use svitock.Config.{AppConfig, DatabaseConfig, ServerConfig, from_file}
use svitock.Database.{PostgresPool, make_pool}
use svitock.Listener.Opening.{open_websocket, open_http}
use svitock.Runtime.{Platform}
use svitock.Server.{Server, make_server, run_server, stop_server}

unfoldable pub connection_string : DatabaseConfig → Bytes
connection_string c =
    codes "host="
    ++ (c.host
        ++ (codes " port="
            ++ (to_string c.port
                ++ (codes " user="
                    ++ (c.user
                        ++ (codes " password=" ++ (c.password ++ (codes " dbname=" ++ c.db))))))))

module _ (p : Platform) where
  -- What the threads of a running server have made of it.
  pub record Served : Type 0 where
    pub actors : ActorType → Option (Actor p.queue)
    pub listener : WebSocketListener
    pub http_accepts : ℕ

  -- The wait ends by a signal, or the process by an exception that leaves a thread, or neither comes.
  pub data Wait : Type 0 where
    signalled : Served → Wait
    crashes : Exception → Wait
    waits : Wait

  -- `main` returns `EXIT_SUCCESS`, or an exception that nothing takes ends the process, or it goes
  -- on.
  pub data End : Type 0 where
    returns : Server p → End
    terminates : Exception → End
    runs_on : End

module _ (p : Platform) (acceptors : AcceptorLib) where
  open acceptors use {System, make_address, endpoint, system}

  -- The constructor of the server: the actors are registered, and then both addresses are bound.
  unfoldable pub construct_server : System → ServerConfig → Outcome (Server p)
  construct_server os config = do
    address ← make_address config.host
    websocket ← open_websocket acceptors os (endpoint address config.ws_port)
    http ← open_http acceptors (system websocket) (endpoint address config.http_port)
    ok (make_server p config)

  -- Up to the return of `server.run()`. `connect` is what the attempt of a round with a connection
  -- string gives.
  unfoldable pub start_process :
      (yaml : YamlLib) {Connection : Type 0}
      → (Bytes → ℕ → Outcome Connection)
      → (Connection → Bool)
      → System
      → Outcome (Server p)
  unfolding construct_server connection_string
  start_process yaml connect is_open os = do
    config ← from_file yaml (codes "config/server.yaml")
    pool ← make_pool (connect (connection_string config.database)) is_open config.database.pool_size
    server ← construct_server os config.server
    ok (run_server p server)

  -- The server as the threads leave it.
  abbrev pub left_by : Server p → Served p → Server p
  left_by server served = record server {
    system = record server.system { actors = served.actors };
    listener = served.listener;
    http_accepts = served.http_accepts;
  }

  -- `cv.wait`, `server.stop()` and the return.
  unfoldable pub await_signal : Server p → Wait p → End p
  await_signal server (signalled served) = returns (stop_server p (left_by server served))
  await_signal server (crashes e) = terminates e
  await_signal server waits = runs_on

  unfoldable pub main :
      (yaml : YamlLib) {Connection : Type 0}
      → (Bytes → ℕ → Outcome Connection)
      → (Connection → Bool)
      → System
      → (Server p → Wait p)
      → End p
  unfolding start_process await_signal
  main yaml connect is_open os serve = elim (start_process yaml connect is_open os) [
    | throws e ↦ terminates e
    | ok server ↦ await_signal server (serve server)
  ]
