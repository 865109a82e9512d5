-- ===== src/Application/Accounts.antt =====
-- Registration and login together.
use svitock.Base.{
  ℕ, ◌≡◌, refl, true, false, ◌||◌, inl, inr, Option, none, some, Bytes, same, is_empty, ok, ◌>>=◌,
  >>=-eq-ok, Bool-cases, if◌then◌else◌, arith,
}
use svitock.Domain.{User}
use svitock.Application.Ports.{UserRepository, KeepsUsers}
use svitock.Application.{create_if_absent, register_user, login_user}

module _ {Uuid : Type 0} (users : UserRepository Uuid) where
  module _ (id : Uuid) (now : ℕ) (username password_hash : Bytes) where
    abbrev new_user : User Uuid
    new_user = record {
      id = id;
      username = username;
      password_hash = password_hash;
      created_at = now;
    }

    pub absent :
        (s s' : users.State) (o : Option (User Uuid))
        → create_if_absent users id now username password_hash s o ≡ ok (s', true)
        → users.create s new_user ≡ ok (s', true)
    unfolding create_if_absent
    absent s s' none h = h
    absent s s' (some u) h = cc

    -- A registration that reports success has called `create` with what it was given.
    registered :
        (s s' : users.State)
        → register_user users s id now username password_hash ≡ ok (s', true)
        → (is_empty username ≡ false)
          × ((middle : users.State) × (users.create middle new_user ≡ ok (s', true)))
    unfolding register_user
    registered s s' h = elim (Bool-cases (is_empty username || is_empty password_hash)) [
      | inl empty ↦ cc (rw empty at h)
      | inr given ↦
          let searched : (users.find_by_username s username >>= λ result.
          create_if_absent users id now username password_hash result.0 result.1)
              ≡ ok (s', true) =
            rw given at h in
          let (result, found, created) = >>=-eq-ok (users.find_by_username s username) _ searched in
          (ground (arith, given), (result.0, absent result.0 s' result.1 created))
    ]

  -- After a creation that reported success, a login under the name succeeds exactly with its password.
  pub login_after_create :
      (s s' : users.State) (id : Uuid) (now : ℕ) (username password_hash attempt : Bytes)
      → KeepsUsers users
      → users.create s (new_user id now username password_hash) ≡ ok (s', true)
      → (s'' : users.State) × (login_user users s' username attempt
          ≡ ok (s'', same password_hash attempt))
  unfolding login_user
  login_after_create s s' id now username password_hash attempt keeps stored =
      let (s'', found, finds, same_password) = keeps.find-create s s' _ stored in
      (s'', rw (finds, same_password) refl)

  -- Over a repository that keeps its users, after a registration that reports success: a login
  -- under the same name succeeds exactly with the same password, and a second registration of the
  -- name reports failure.
  pub login_user-register_user :
      (s s' : users.State) (id id' : Uuid) (now later : ℕ) (username password_hash attempt : Bytes)
      → KeepsUsers users
      → register_user users s id now username password_hash ≡ ok (s', true)
      → (s'' : users.State) × (login_user users s' username attempt
          ≡ ok (s'', same password_hash attempt))
        × (register_user users s' id' later username attempt
            ≡ ok (if is_empty attempt then s' else s'', false))
  unfolding login_user register_user create_if_absent
  login_user-register_user s s' id id' now later username password_hash attempt keeps h =
      let (given, (middle, stored)) = registered id now username password_hash s s' h in
      let (s'', found, finds, same_password) = keeps.find-create middle s' _ stored in
      (s'', rw (finds, same_password) refl, again s'' found given finds)
    where
      again :
          (s'' : users.State) (found : User Uuid)
          → is_empty username ≡ false
          → users.find_by_username s' username ≡ ok (s'', some found)
          → register_user users s' id' later username attempt
            ≡ ok (if is_empty attempt then s' else s'', false)
      again s'' found given finds = elim (Bool-cases (is_empty attempt)) [
        | inl empty ↦ rw (given, empty) refl
        | inr full ↦ rw (given, full, finds) refl
      ]
