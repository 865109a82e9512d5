-- ===== src/Server.antt =====
-- infrastructure/network/server and core/threading/thread_pool: running and stopping.
pub mod Lifecycle
pub mod Startup
use svitock.Base.{ℕ, ◌+◌, Bool, true, false, if◌then◌else◌}
use svitock.Extern.Queue.{QueueLib}
use svitock.Actor.Payload.{ActorEnvelope}
use svitock.Actor.System.{ActorSystem, start, stop}
use svitock.Config.{ServerConfig}
use svitock.Listener.{WebSocketListener, make_listener, do_accept}
use svitock.Runtime.{Platform}
use svitock.Runtime.Worker.{server_actors}

-- `workers` is the number of threads, `guarded` says that the work guard is held, and `halted` that
-- the pool has stopped its context, which nothing restarts.
pub record ThreadPool : Type 0 where
  pub workers : ℕ
  pub guarded : Bool
  pub halted : Bool

unfoldable pub make_thread_pool : ThreadPool
make_thread_pool = record { workers = 0; guarded = true; halted = false }

unfoldable pub start_pool : ThreadPool → ℕ → ThreadPool
start_pool pool threads = record pool { workers = pool.workers + threads }

-- Every thread leaves `run` of the stopped context, and is joined.
unfoldable pub stop_pool : ThreadPool → ThreadPool
stop_pool pool = record { workers = 0; guarded = false; halted = true }

module _ (p : Platform) where
  -- `http_accepts` counts the outstanding accepts of the HTTP listener.
  pub record Server : Type 0 where
    pub config : ServerConfig
    pub network : ThreadPool
    pub system : ActorSystem p.queue
    pub listener : WebSocketListener
    pub http_accepts : ℕ
    pub running : Bool

  -- The constructor, where the addresses can be bound.
  unfoldable pub make_server : ServerConfig → Server
  unfolding server_actors
  make_server config = record {
    config = config;
    network = make_thread_pool;
    system = server_actors p config.mailbox_capacity;
    listener = make_listener;
    http_accepts = 0;
    running = false;
  }

  unfoldable pub run_server : Server → Server
  run_server s = if s.running then s else record s {
    running = true;
    listener = do_accept s.listener;
    http_accepts = s.http_accepts + 1;
    system = start p.queue s.system s.config.actor_threads;
    network = start_pool s.network s.config.network_threads;
  }

  unfoldable pub stop_server : Server → Server
  stop_server s =
      if s.running
      then record s {
        running = false;
        network = stop_pool s.network;
        system = stop p.queue s.system;
      }
      else s
