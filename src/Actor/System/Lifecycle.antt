-- ===== src/Actor/System/Lifecycle.antt =====
-- Starting and stopping the actor system, in any order.
use svitock.Base.{ℕ, ◌≡◌, refl, inl, inr, Bool-cases, List, [], ◌∷◌, arith, if◌then◌else◌}
use svitock.Extern.Queue.{QueueLib}
use svitock.Actor.Payload.{ActorEnvelope}
use svitock.Actor.System.{ActorSystem, make_actor_system, start, stop}

pub data Request : Type 0 where
  starts stops : Request

module _ {Json : Type 0} (q : QueueLib (ActorEnvelope Json)) where
  -- `start` is always called with the configured number of threads.
  abbrev pub request : ℕ → ActorSystem q → Request → ActorSystem q
  request n s starts = start q s n
  request n s stops = stop q s

  unfoldable pub requests : ℕ → ActorSystem q → List Request → ActorSystem q
  requests n s [] = s
  requests n s (r ∷ rs) = requests n (request n s r) rs

  pub actors-start :
      (s : ActorSystem q) (worker_threads : ℕ) → s.actors ≡ (start q s worker_threads).actors
  unfolding start
  actors-start s worker_threads = elim (Bool-cases s.running) [
    | inl runs ↦ simp (start, runs)
    | inr rests ↦ simp (start, rests)
  ]

  pub actors-stop : (s : ActorSystem q) → s.actors ≡ (stop q s).actors
  unfolding stop
  actors-stop s = elim (Bool-cases s.running) [
    | inl runs ↦ simp (stop, runs)
    | inr rests ↦ simp (stop, rests)
  ]

  -- Either the system runs with its full set of workers, or it has none.
  abbrev pub HasWorkers : ℕ → ActorSystem q → Type 0
  HasWorkers n s = s.workers ≡ (if s.running then n else 0)

  request-HasWorkers :
      (n : ℕ) (s : ActorSystem q) (r : Request) → HasWorkers n s → HasWorkers n (request n s r)
  unfolding start stop
  request-HasWorkers n s starts h = ground arith
  request-HasWorkers n s stops h = ground arith

  requests-HasWorkers :
      (n : ℕ) (s : ActorSystem q) (rs : List Request)
      → HasWorkers n s
      → HasWorkers n (requests n s rs)
  unfolding requests
  requests-HasWorkers n s [] h = h
  requests-HasWorkers n s (r ∷ rs) h =
      requests-HasWorkers n (request n s r) rs (request-HasWorkers n s r h)

  -- Whatever calls of `start n` and `stop` a new system gets, it has exactly `n` workers while it
  -- runs and none while it does not; a further call that asks for the state it is in changes
  -- nothing.
  pub requests_lem :
      (n : ℕ) (rs : List Request)
      → let s = requests n (make_actor_system q) rs in
        HasWorkers n s × (start q (start q s n) n ≡ start q s n) × (stop q (stop q s) ≡ stop q s)
  unfolding make_actor_system start stop
  requests_lem n rs =
      (requests-HasWorkers n (make_actor_system q) rs refl, ground arith, ground arith)
