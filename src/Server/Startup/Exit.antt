-- ===== src/Server/Startup/Exit.antt =====
-- What is left when the process ends in order.
use svitock.Base.{ℕ, ◌≤◌, ◌≡◌, Bool, false, Bytes, codes, Outcome, ok}
use svitock.Extern.Acceptor.{AcceptorLib}
use svitock.Extern.Yaml.{YamlLib}
use svitock.Config.{AppConfig, from_file}
use svitock.Database.Filling.{Opens}
use svitock.Runtime.{Platform}
use svitock.Server.{Server}
use svitock.Listener.Opening.{open_websocket, open_http}
use svitock.Server.Startup.{connection_string}

module _ (p : Platform) (acceptors : AcceptorLib) (yaml : YamlLib) {Connection : Type 0}
    (connect : Bytes → ℕ → Outcome Connection) (is_open : Connection → Bool)
    (os : acceptors.System) where
  open acceptors use {System, Address, Acceptor, make_address, endpoint, system}

  -- What the process needs: a configuration, a pool of at least one connection, each of them open,
  -- and the two addresses, the second after the first.
  pub record Starts (config : AppConfig) : Type 0 where
    pub loaded : from_file yaml (codes "config/server.yaml") ≡ ok config
    pub positive : 1 ≤ config.database.pool_size
    pub opens :
        Opens (connect (connection_string config.database)) is_open 0 config.database.pool_size
    pub bound :
        (address : Address) × (websocket : Acceptor) × (http : Acceptor) × (make_address
            config.server.host
          ≡ ok address)
        × (open_websocket acceptors os (endpoint address config.server.ws_port) ≡ ok websocket)
        × (open_http acceptors (system websocket) (endpoint address config.server.http_port)
            ≡ ok http)

  -- Neither the actor system nor the network runs.
  abbrev pub HasStopped : Server p → Type 0
  HasStopped server =
      (server.running ≡ false)
      × (server.system.running ≡ false)
      × (server.system.workers ≡ 0)
      × (server.network.workers ≡ 0)
      × (server.network.guarded ≡ false)
