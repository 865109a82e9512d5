-- ===== src/Runtime/Life/Connected.antt =====
-- The agreement between the sessions that are alive and the registry of transports, and its
-- preservation when one session changes.
use svitock.Base.{
  ℕ, ◌+◌, ◌==◌, ==_iff, ◌≤◌, ◌≡◌, ◌≢◌, refl, sym, ap, ◌∙◌, ◌⊎◌, inl, inr, subst, Option, some,
  Bytes, same, same_iff, Bool-cases, arith,
}
use svitock.Base.Dict.{lookup}
use svitock.Session.{WebSocketSession, Transports, make_session, run_session}
use svitock.Session.Writes.{IsWriting, HasFailed}
use svitock.Runtime.Life.{put}

-- It reads, and no write of it has failed.
abbrev pub IsOpen : WebSocketSession → Type 0
IsOpen s = (s.reads ≡ 1) × IsWriting s

-- It has one handshake or one read outstanding, or neither; it writes in turn, or has failed to; and
-- until its handshake is over, nothing is sent to it and nothing written.
pub record IsSession (s : WebSocketSession) : Type 0 where
  pub single : s.accepting + s.reads ≤ 1
  pub one_write : IsWriting s ⊎ HasFailed s
  pub silent : s.accepting ≡ 1 → s ≡ run_session (make_session s.session_id)

-- The registry leads to the open sessions, and to no others: what it has for an identifier is the
-- address of a live, open session of this identifier, and each such session is found.
pub record IsConnected (transports : Transports) (objects : ℕ → Option WebSocketSession)
    : Type 0 where
  pub sessions : (a : ℕ) (s : WebSocketSession) → objects a ≡ some s → IsSession s
  pub unique :
      (a b : ℕ) (s t : WebSocketSession)
      → objects a ≡ some s
      → objects b ≡ some t
      → s.session_id ≡ t.session_id
      → a ≡ b
  pub alive :
      (k : Bytes) (a : ℕ)
      → lookup k transports ≡ some a
      → (s : WebSocketSession) × (objects a ≡ some s) × (s.session_id ≡ k) × IsOpen s
  pub found :
      (a : ℕ) (s : WebSocketSession)
      → objects a ≡ some s
      → IsOpen s
      → lookup s.session_id transports ≡ some a

pub some_injective : {A : Type 0} {x y : A} → some x ≡ some y → x ≡ y
some_injective h = cc

-- A session that is alive after a change at one address is the new one, or another that was alive.
pub put-cases :
    (objects : ℕ → Option WebSocketSession) (address a : ℕ) (o : Option WebSocketSession)
    (x : WebSocketSession)
    → put objects address o a ≡ some x
    → ((a ≡ address) × (o ≡ some x)) ⊎ ((a ≢ address) × (objects a ≡ some x))
unfolding put
put-cases objects address a o x h = elim (Bool-cases (a == address)) [
  | inl here ↦ inl ((==_iff a address).0 here, (rw (put, here) at h))
  | inr there ↦ inr (ground (arith, ==_iff a address), (rw (put, there) at h))
]

pub put-here :
    (objects : ℕ → Option WebSocketSession) (address : ℕ) (o : Option WebSocketSession)
    → put objects address o address ≡ o
unfolding put
put-here objects address o = rw ((==_iff address address).1 refl)

pub put-there :
    (objects : ℕ → Option WebSocketSession) (address a : ℕ) (o : Option WebSocketSession)
    → a ≢ address
    → put objects address o a ≡ objects a
unfolding put
put-there objects address a o h = ground (arith, ==_iff a address)

same-cases : (k j : Bytes) → (k ≡ j) ⊎ (k ≢ j)
same-cases k j = elim (Bool-cases (same k j)) [
  | inl e ↦ inl ((same_iff k j).0 e)
  | inr e ↦ inr (λ h. ground (arith, same_iff k j))
]

module _ (t t' : Transports) (objects : ℕ → Option WebSocketSession) (address : ℕ)
    (v : IsConnected t objects) (s : WebSocketSession) (is_session : IsSession s)
    (apart : (b : ℕ) (x : WebSocketSession)
      → b ≢ address
      → objects b ≡ some x
      → s.session_id ≢ x.session_id)
    (others : (k : Bytes) → s.session_id ≢ k → lookup k t' ≡ lookup k t)
    (opened : IsOpen s → lookup s.session_id t' ≡ some address)
    (bound : (b : ℕ) → lookup s.session_id t' ≡ some b → (b ≡ address) × IsOpen s)
    (free : (k : Bytes) → lookup k t ≡ some address → s.session_id ≡ k) where
  abbrev after : ℕ → Option WebSocketSession
  after = put objects address (some s)

  after-cases :
      (a : ℕ) (x : WebSocketSession)
      → after a ≡ some x
      → ((a ≡ address) × (s ≡ x)) ⊎ ((a ≢ address) × (objects a ≡ some x))
  after-cases a x h = elim (put-cases objects address a (some s) x h) [
    | inl (here, e) ↦ inl (here, some_injective e)
    | inr other ↦ inr other
  ]

  unique_after :
      (a b : ℕ) (x y : WebSocketSession)
      → ((a ≡ address) × (s ≡ x)) ⊎ ((a ≢ address) × (objects a ≡ some x))
      → ((b ≡ address) × (s ≡ y)) ⊎ ((b ≢ address) × (objects b ≡ some y))
      → x.session_id ≡ y.session_id
      → a ≡ b
  unique_after a b x y (inl (here, e)) (inl (here', e')) same_id = here ∙ sym here'
  unique_after a b x y (inl (here, e)) (inr (there, h)) same_id =
      absurd (apart b y there h (ap (λ z. z.session_id) e ∙ same_id))
  unique_after a b x y (inr (there, h)) (inl (here, e)) same_id =
      absurd (apart a x there h (ap (λ z. z.session_id) e ∙ sym same_id))
  unique_after a b x y (inr (there, h)) (inr (there', h')) same_id = v.unique a b x y h h' same_id

  alive_after :
      (k : Bytes) (a : ℕ)
      → lookup k t' ≡ some a
      → (x : WebSocketSession) × (after a ≡ some x) × (x.session_id ≡ k) × IsOpen x
  alive_after k a h = elim (same-cases s.session_id k) [
    | inl here ↦
        let (at, is_open) = bound a (rw here h) in
        (s, rw (at, put-here objects address (some s)) refl, here, is_open)
    | inr other ↦
        let (x, e, id, is_open) = v.alive k a (sym (others k other) ∙ h) in
        (
          x,
          put-there objects address a (some s)
                (λ at. other (free k (sym (others k other) ∙ (h ∙ ap some at))))
              ∙ e,
          id,
          is_open,
        )
  ]

  found_after :
      (a : ℕ) (x : WebSocketSession)
      → ((a ≡ address) × (s ≡ x)) ⊎ ((a ≢ address) × (objects a ≡ some x))
      → IsOpen x
      → lookup x.session_id t' ≡ some a
  found_after a x (inl (here, e)) is_open =
      subst (λ y. lookup y.session_id t' ≡ some a) e
        (opened (subst IsOpen (sym e) is_open) ∙ ap some (sym here))
  found_after a x (inr (there, h)) is_open =
      others x.session_id (apart a x there h) ∙ v.found a x h is_open

  -- The session at an address is replaced, or made, and the registry follows.
  pub put-IsConnected : IsConnected t' after
  put-IsConnected = record {
    sessions = λ a x h. elim (after-cases a x h) [
      | inl (here, e) ↦ subst IsSession e is_session
      | inr (there, e) ↦ v.sessions a x e
    ];
    unique = λ a b x y hx hy. unique_after a b x y (after-cases a x hx) (after-cases b y hy);
    alive = alive_after;
    found = λ a x h. found_after a x (after-cases a x h);
  }
