-- ===== src/Database/Filling.antt =====
-- A pool is made exactly if every connection opens.
use svitock.Base.{
  ℕ, zero, suc, ◌≤◌, ◌==◌, ◌≡◌, refl, ◌↔◌, inl, inr, Bool, true, List, [], ◌∷◌, Outcome, ok,
  >>=-eq-ok, Bool-cases, arith,
}
use svitock.Database.{PostgresPool, fill, make_pool}

module _ {Connection : Type 0} (connect : ℕ → Outcome Connection)
    (is_open : Connection → Bool) where
  -- The attempts from a round on, as many as are left, give open connections.
  abbrev pub Opens : ℕ → ℕ → Type 0
  Opens i zero = Unit
  Opens i (suc n) = ((c : Connection) × (connect i ≡ ok c) × (is_open c ≡ true)) × Opens (suc i) n

  fill-Opens :
      (i n : ℕ) (connections : List Connection)
      → fill connect is_open i n ≡ ok connections
      → Opens i n
  unfolding fill
  fill-Opens i zero connections h = tt
  fill-Opens i (suc n) connections h =
      let (c, connected, rest) = >>=-eq-ok (connect i) _ h in
      elim (Bool-cases (is_open c)) [
        | inl opened ↦
            let (cs, filled, same) =
              >>=-eq-ok (fill connect is_open (suc i) n) _ (rw opened at rest) in
            ((c, connected, opened), fill-Opens (suc i) n cs filled)
        | inr shut ↦ cc (rw shut at rest)
      ]

  fill_of_Opens :
      (i n : ℕ)
      → Opens i n
      → (connections : List Connection) × (fill connect is_open i n ≡ ok connections)
  unfolding fill
  fill_of_Opens i zero h = ([], refl)
  fill_of_Opens i (suc n) ((c, connected, opened), rest) =
      let (cs, filled) = fill_of_Opens (suc i) n rest in
      (c ∷ cs, rw (fill, connected, opened, filled) refl)

  -- The constructor returns exactly if the size is positive and every attempt gives an open
  -- connection.
  pub make_pool_iff :
      (pool_size : ℕ)
      → ((p : PostgresPool Connection) × (make_pool connect is_open pool_size ≡ ok p))
        ↔ ((1 ≤ pool_size) × Opens 0 pool_size)
  unfolding make_pool
  make_pool_iff pool_size = (returns pool_size, makes pool_size)
    where
      returns :
          (pool_size : ℕ)
          → (p : PostgresPool Connection) × (make_pool connect is_open pool_size ≡ ok p)
          → (1 ≤ pool_size) × Opens 0 pool_size
      returns pool_size (p, h) = elim (Bool-cases (pool_size == 0)) [
        | inl none' ↦ cc (rw none' at h)
        | inr positive ↦
            let (cs, filled, same) =
              >>=-eq-ok (fill connect is_open 0 pool_size) _ (rw positive at h) in
            (ground (arith, positive), fill-Opens 0 pool_size cs filled)
      ]

      makes :
          (pool_size : ℕ)
          → (1 ≤ pool_size) × Opens 0 pool_size
          → (p : PostgresPool Connection) × (make_pool connect is_open pool_size ≡ ok p)
      makes zero (positive, opens) = absurd (omega (arith, positive))
      makes (suc n) (positive, opens) =
          let (cs, filled) = fill_of_Opens 0 (suc n) opens in
          (record { pool = cs; next = 0 }, rw (make_pool, filled) (ground arith))
