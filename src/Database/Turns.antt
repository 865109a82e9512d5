-- ===== src/Database/Turns.antt =====
-- The connections come in turn.
use svitock.Base.{
  ℕ, zero, suc, ◌+◌, ◌%◌, ◌^◌, ◌≤◌, ◌<◌, ◌==◌, ◌≡◌, refl, ◌∙◌, ap, inl, inr, Bool, some, List, [],
  ◌∷◌, length, get_elem?, Outcome, ok, ◌>>=◌, >>=-eq-ok, Bool-cases, Option-cases, arith,
}
use native.Mathlib.Nat.{mod-lt}
use svitock.Database.{PostgresPool, fill, make_pool, acquire, acquire_times}

wrapped : (a n : ℕ) → ((a + 1) % 2 ^ 64 + n) % 2 ^ 64 ≡ (a + suc n) % 2 ^ 64
wrapped a n = omega arith

unwrapped : (a : ℕ) → a < 2 ^ 64 → (a + 0) % 2 ^ 64 ≡ a
unwrapped a h = omega arith

below : (a : ℕ) → (a + 1) % 2 ^ 64 < 2 ^ 64
below a = omega arith

zero_add : (k : ℕ) → 0 + k ≡ k
zero_add k = omega arith

place :
    (k pool_size next size : ℕ)
    → next ≡ 0
    → size ≡ pool_size
    → k % 2 ^ 64 % pool_size ≡ (next + k) % 2 ^ 64 % size
place k pool_size next size h k' = rw (h, k', zero_add k) refl

module _ {Connection : Type 0} where
  fill-length :
      (connect : ℕ → Outcome Connection) (is_open : Connection → Bool) (i n : ℕ)
      (connections : List Connection)
      → fill connect is_open i n ≡ ok connections
      → length connections ≡ n
  unfolding fill
  fill-length connect is_open i zero connections h = ground arith
  fill-length connect is_open i (suc n) connections h =
      let (c, connected, rest) = >>=-eq-ok (connect i) _ h in
      elim (Bool-cases (is_open c)) [
        | inl opened ↦
            let (cs, filled, same) =
              >>=-eq-ok (fill connect is_open (suc i) n) _ (rw opened at rest) in
            ground (arith, same, fill-length connect is_open (suc i) n cs filled)
        | inr shut ↦ cc (rw shut at rest)
      ]

  get_elem?-some :
      (xs : List Connection) (i : ℕ) → i < length xs → (x : Connection) × (get_elem? xs i ≡ some x)
  get_elem?-some [] i h = absurd (omega arith)
  get_elem?-some (x ∷ xs) zero h = (x, refl)
  get_elem?-some (x ∷ xs) (suc i) h = get_elem?-some xs i (omega arith)

  length-get_elem? :
      (xs : List Connection) (i : ℕ) (x : Connection) → get_elem? xs i ≡ some x → 1 ≤ length xs
  length-get_elem? [] i x h = cc
  length-get_elem? (y ∷ ys) i x h = omega arith

  acquire_lem :
      (p : PostgresPool Connection)
      → 1 ≤ length p.pool
      → (c : Connection) × (get_elem? p.pool (p.next % length p.pool) ≡ some c)
        × (acquire p ≡ ok (record p { next = (p.next + 1) % 2 ^ 64 }, c))
  unfolding acquire
  acquire_lem p h =
      let (c, e) = get_elem?-some p.pool (p.next % length p.pool) (mod-lt p.next h) in
      (c, e, rw (e, acquire) refl)

  acquire-size :
      (p p' : PostgresPool Connection) (c : Connection)
      → acquire p ≡ ok (p', c)
      → (1 ≤ length p.pool) × (p'.pool ≡ p.pool)
  unfolding acquire
  acquire-size p p' c h = elim (Option-cases (get_elem? p.pool (p.next % length p.pool))) [
    | inl out_of_range ↦ cc (rw (out_of_range, acquire) at h)
    | inr (c', found) ↦ (length-get_elem? p.pool _ c' found, cc (rw (found, acquire) at h))
  ]

  -- A pool that has given a connection gives another.
  pub acquire-acquire :
      (p p' : PostgresPool Connection) (c : Connection)
      → acquire p ≡ ok (p', c)
      → (p'' : PostgresPool Connection) × (c' : Connection) × (acquire p' ≡ ok (p'', c'))
  acquire-acquire p p' c h =
      let (positive, same) = acquire-size p p' c h in
      let (c', found, acquired) = acquire_lem p' (rw same positive) in (_, c', acquired)

  acquire_times_lem :
      (k : ℕ) (p : PostgresPool Connection)
      → 1 ≤ length p.pool
      → p.next < 2 ^ 64
      → acquire_times k p ≡ ok (record p { next = (p.next + k) % 2 ^ 64 })
  unfolding acquire_times
  acquire_times_lem zero p h bound = rw (unwrapped p.next bound) refl
  acquire_times_lem (suc k) p h bound =
      let (c, found, acquired) = acquire_lem p h in
      rw
        (
          acquire_times,
          acquired,
          acquire_times_lem k (record p { next = (p.next + 1) % 2 ^ 64 }) h (below p.next),
          wrapped p.next k,
        )
        refl

  -- A pool that was made of `pool_size` connections never fails: after `k` calls of `acquire`, each
  -- of which returned, the next call returns the connection at the place `k`, reduced to 64 bits,
  -- modulo `pool_size`.
  pub acquire-make_pool :
      (connect : ℕ → Outcome Connection) (is_open : Connection → Bool) (pool_size k : ℕ)
      (p : PostgresPool Connection)
      → make_pool connect is_open pool_size ≡ ok p
      → (c : Connection) × (p' : PostgresPool Connection) × (get_elem? p.pool
            (k % 2 ^ 64 % pool_size)
          ≡ some c)
        × ((acquire_times k p >>= acquire) ≡ ok (p', c))
  unfolding make_pool
  acquire-make_pool connect is_open pool_size k p h =
      let (size, start, some_size) = made pool_size h in
      let used : PostgresPool Connection = record p { next = (p.next + k) % 2 ^ 64 } in
      let (c, found, acquired) = acquire_lem used (rw size some_size) in
      (
        c,
        record p { next = (used.next + 1) % 2 ^ 64 },
        ap (get_elem? p.pool) (place k pool_size p.next (length p.pool) start size) ∙ found,
        rw (acquire_times_lem k p (rw size some_size) (rw start (omega arith))) acquired,
      )
    where
      made :
          (pool_size : ℕ)
          → make_pool connect is_open pool_size ≡ ok p
          → (length p.pool ≡ pool_size) × (p.next ≡ 0) × (1 ≤ pool_size)
      made pool_size h = elim (Bool-cases (pool_size == 0)) [
        | inl none' ↦ cc (rw none' at h)
        | inr positive ↦
            let (cs, filled, same) =
              >>=-eq-ok (fill connect is_open 0 pool_size) _ (rw positive at h) in
            ground (arith, same, positive, fill-length connect is_open 0 pool_size cs filled)
      ]
