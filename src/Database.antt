-- ===== src/Database.antt =====
-- infrastructure/database/postgres_pool: connections handed out in turn.
pub mod Turns
pub mod Filling
use svitock.Base.{
  ℕ, zero, suc, ◌+◌, ◌%◌, ◌^◌, ◌==◌, Bool, true, false, Option, none, some, List, [], ◌∷◌, length,
  get_elem?, Outcome, ok, throws, ◌>>=◌, infrastructure_error, undefined_behaviour, if◌then◌else◌,
}

-- `next_` is an unsigned 64-bit number.
pub record PostgresPool (Connection : Type 0) : Type 0 where
  pub pool : List Connection
  pub next : ℕ

module _ {Connection : Type 0} where
  -- The loop of the constructor from a round on; `connect` is what each round's attempt gives.
  unfoldable pub fill :
      (ℕ → Outcome Connection) → (Connection → Bool) → ℕ → ℕ → Outcome (List Connection)
  fill connect is_open i zero = ok []
  fill connect is_open i (suc n) =
      let rest = fill connect is_open (suc i) n in
      connect i >>= λ connection.
      if is_open connection
      then (rest >>= λ connections. ok (connection ∷ connections))
      else throws infrastructure_error

  unfoldable pub make_pool :
      (ℕ → Outcome Connection) → (Connection → Bool) → ℕ → Outcome (PostgresPool Connection)
  unfolding fill
  make_pool connect is_open pool_size =
      if pool_size == 0
      then throws infrastructure_error
      else (fill connect is_open 0 pool_size >>= λ connections.
          ok (record { pool = connections; next = 0 }))

  -- `pool_[next_.fetch_add(1) % pool_.size()]`.
  unfoldable pub acquire : PostgresPool Connection → Outcome (PostgresPool Connection × Connection)
  acquire p = elim (get_elem? p.pool (p.next % length p.pool)) [
    | none ↦ throws undefined_behaviour
    | some connection ↦ ok (record p { next = (p.next + 1) % 2 ^ 64 }, connection)
  ]

  unfoldable pub acquire_times : ℕ → PostgresPool Connection → Outcome (PostgresPool Connection)
  unfolding acquire
  acquire_times zero p = ok p
  acquire_times (suc n) p = acquire p >>= λ result. acquire_times n result.0
