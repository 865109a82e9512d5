-- ===== src/Runtime/Life/Steps.antt =====
-- What happens to one session of a server keeps the registry of transports and the sessions in
-- agreement.
use svitock.Base.{
  ℕ, ◌≡◌, ◌≢◌, refl, sym, ap, ◌∙◌, inl, inr, subst, Option, none, some, Bytes, same_iff, same_refl,
  arith,
}
use svitock.Base.Dict.{lookup, lookup-insert, lookup-erase}
use svitock.Session.{
  WebSocketSession, Transports, make_session, run_session, bind_transport, unbind_transport,
}
use svitock.Runtime.Life.{put}
use svitock.Runtime.Life.Connected.{
  IsOpen, IsSession, IsConnected, put-IsConnected, some_injective, put-there, put-cases,
}
use svitock.Runtime.Life.Events.{run_session-IsSession, run_session-closed, session_id-run_session}

lookup-bind_transport :
    (k j : Bytes) (a : ℕ) (t : Transports) → k ≢ j → lookup j (bind_transport k a t) ≡ lookup j t
unfolding bind_transport
lookup-bind_transport k j a t h = rw (lookup-insert k j a t) (ground (arith, same_iff k j))

lookup-unbind_transport :
    (k j : Bytes) (t : Transports) → k ≢ j → lookup j (unbind_transport k t) ≡ lookup j t
unfolding unbind_transport
lookup-unbind_transport k j t h = rw (lookup-erase k j t) (ground (arith, same_iff k j))

bound_to : (k : Bytes) (a : ℕ) (t : Transports) → lookup k (bind_transport k a t) ≡ some a
unfolding bind_transport
bound_to k a t = rw (lookup-insert k k a t, same_refl k) refl

unbound : (k : Bytes) (t : Transports) → lookup k (unbind_transport k t) ≡ none
unfolding unbind_transport
unbound k t = rw (lookup-erase k k t, same_refl k) refl

pub none_is_no_some : {A : Type 0} {x : A} → none ≡ some x → ⊥
none_is_no_some h = cc

module _ (t : Transports) (objects : ℕ → Option WebSocketSession) (v : IsConnected t objects)
    (address : ℕ) (s : WebSocketSession) (live : objects address ≡ some s) (s' : WebSocketSession)
    (is_session : IsSession s') (same_id : s'.session_id ≡ s.session_id) where
  apart :
      (b : ℕ) (x : WebSocketSession)
      → b ≢ address
      → objects b ≡ some x
      → s'.session_id ≢ x.session_id
  apart b x there h e = there (v.unique b address x s h live (sym e ∙ same_id))

  at_address : (k : Bytes) → lookup k t ≡ some address → s'.session_id ≡ k
  at_address k h =
      let (x, e, id, is_open) = v.alive k address h in
      same_id ∙ (ap (λ z. z.session_id) (some_injective (sym live ∙ e)) ∙ id)

  -- The session changes, and whether it is open does not.
  pub change-IsConnected :
      (IsOpen s → IsOpen s')
      → (IsOpen s' → IsOpen s)
      → IsConnected t (put objects address (some s'))
  change-IsConnected to from =
      put-IsConnected t t objects address v s' is_session apart (λ k h. refl)
        (λ h. rw same_id (v.found address s live (from h)))
        (λ b h.
          let (x, e, id, is_open) = v.alive s'.session_id b h in
          let here = v.unique b address x s e live (id ∙ same_id) in
          (here, to (subst IsOpen (some_injective (sym e ∙ (ap objects here ∙ live))) is_open)))
        at_address

  -- The session opens and is bound.
  pub bind-IsConnected :
      IsOpen s'
      → IsConnected (bind_transport s.session_id address t) (put objects address (some s'))
  bind-IsConnected is_open =
      put-IsConnected t (bind_transport s.session_id address t) objects address v s' is_session
        apart (λ k h. lookup-bind_transport s.session_id k address t (λ e. h (same_id ∙ e)))
        (λ h. rw same_id (bound_to s.session_id address t))
        (λ b h. (some_injective (sym (rw same_id at h) ∙ bound_to s.session_id address t), is_open))
        at_address

  -- The session ends and is unbound.
  pub unbind-IsConnected :
      (IsOpen s' → ⊥)
      → IsConnected (unbind_transport s.session_id t) (put objects address (some s'))
  unbind-IsConnected closed =
      put-IsConnected t (unbind_transport s.session_id t) objects address v s' is_session apart
        (λ k h. lookup-unbind_transport s.session_id k t (λ e. h (same_id ∙ e)))
        (λ h. absurd (closed h))
        (λ b h. absurd (none_is_no_some (sym (unbound s.session_id t) ∙ (rw same_id at h))))
        at_address

pub put-put :
    (objects : ℕ → Option WebSocketSession) (address : ℕ) (o o' : Option WebSocketSession) (a : ℕ)
    → put (put objects address o) address o' a ≡ put objects address o' a
unfolding put
put-put objects address o o' a = ground arith

module _ (t : Transports) (objects : ℕ → Option WebSocketSession) (v : IsConnected t objects)
    (address : ℕ) where
  pub open-IsConnected :
      (session_id : Bytes)
      → objects address ≡ none
      → ((a : ℕ) (x : WebSocketSession) → objects a ≡ some x → x.session_id ≢ session_id)
      → IsConnected t (put objects address (some (run_session (make_session session_id))))
  open-IsConnected session_id vacant fresh =
      let s = run_session (make_session session_id) in
      let id = session_id-run_session session_id in
      put-IsConnected t t objects address v s (run_session-IsSession session_id)
        (λ b x there h e. fresh b x h (sym e ∙ id)) (λ k h. refl)
        (λ h. absurd (run_session-closed session_id h))
        (λ b h.
          let (x, e, id', is_open) = v.alive s.session_id b h in absurd (fresh b x e (id' ∙ id)))
        (λ k h.
          let (x, e, id', is_open) = v.alive k address h in
          absurd (none_is_no_some (sym vacant ∙ e)))

  still_there :
      (a : ℕ) (x : WebSocketSession)
      → put objects address none a ≡ some x
      → (a ≢ address) × (objects a ≡ some x)
  still_there a x h = elim (put-cases objects address a none x h) [
    | inl (here, e) ↦ absurd (none_is_no_some e)
    | inr other ↦ other
  ]

  pub die-IsConnected :
      (s : WebSocketSession)
      → objects address ≡ some s
      → (IsOpen s → ⊥)
      → IsConnected t (put objects address none)
  die-IsConnected s live closed = record {
    sessions = λ a x h. v.sessions a x (still_there a x h).1;
    unique = λ a b x y hx hy. v.unique a b x y (still_there a x hx).1 (still_there b y hy).1;
    alive = λ k a h.
        let (x, e, id, is_open) = v.alive k a h in
        (
          x,
          put-there objects address a none (λ here.
                closed (subst IsOpen (some_injective (sym e ∙ (ap objects here ∙ live))) is_open))
              ∙ e,
          id,
          is_open,
        );
    found = λ a x h. v.found a x (still_there a x h).1;
  }
