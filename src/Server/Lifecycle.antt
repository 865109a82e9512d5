-- ===== src/Server/Lifecycle.antt =====
-- Any calls of `run` and `stop`.
use svitock.Base.{◌≡◌, refl, true, false, List, [], ◌∷◌, if◌then◌else◌, arith}
use svitock.Actor.System.{make_actor_system, register_actor, start, stop}
use svitock.Config.{ServerConfig}
use svitock.Runtime.{Platform}
use svitock.Runtime.Worker.{server_actors}
use svitock.Server.{
  make_thread_pool, start_pool, stop_pool, Server, make_server, run_server, stop_server,
}

pub data ServerCall : Type 0 where
  runs halts : ServerCall

module _ (p : Platform) where
  abbrev server_call : Server p → ServerCall → Server p
  server_call s runs = run_server p s
  server_call s halts = stop_server p s

  unfoldable pub server_calls : Server p → List ServerCall → Server p
  server_calls s [] = s
  server_calls s (c ∷ cs) = server_calls (server_call s c) cs

  -- The parts run exactly while the server does, with the configured threads, and the network holds
  -- its work guard while its context was not stopped.
  abbrev pub IsConsistent : ServerConfig → Server p → Type 0
  IsConsistent config s =
      (s.config ≡ config)
      × (s.system.running ≡ s.running)
      × (s.system.workers ≡ (if s.running then config.actor_threads else 0))
      × (s.network.workers ≡ (if s.running then config.network_threads else 0))
      × (s.network.guarded ≡ (if s.network.halted then false else true))

  server_call-IsConsistent :
      (config : ServerConfig) (s : Server p) (c : ServerCall)
      → IsConsistent config s
      → IsConsistent config (server_call s c)
  unfolding run_server stop_server start stop start_pool stop_pool
  server_call-IsConsistent config s runs (a, b, c, d, e) = ground arith
  server_call-IsConsistent config s halts (a, b, c, d, e) = ground arith

  server_calls-IsConsistent :
      (config : ServerConfig) (s : Server p) (cs : List ServerCall)
      → IsConsistent config s
      → IsConsistent config (server_calls s cs)
  unfolding server_calls
  server_calls-IsConsistent config s [] v = v
  server_calls-IsConsistent config s (c ∷ cs) v =
      server_calls-IsConsistent config (server_call s c) cs (server_call-IsConsistent config s c v)

  -- Whatever calls of `run` and `stop` a new server gets: while it runs, the actor system runs with
  -- the configured number of workers and the network has the configured number of threads; while it
  -- does not, both have none; and the work guard is held exactly while the context was not stopped.
  pub server_calls-make_server :
      (config : ServerConfig) (cs : List ServerCall)
      → IsConsistent config (server_calls (make_server p config) cs)
  unfolding make_server server_actors make_thread_pool make_actor_system register_actor
  server_calls-make_server config cs =
      server_calls-IsConsistent config (make_server p config) cs (refl, refl, refl, refl, refl)
