-- ===== src/Runtime/Life/Origins.antt =====
-- The steps of a running server, its connections included, as steps of Runtime.Reachable: what is
-- dispatched comes from a session that was opened.
use svitock.Base.{
  ℕ, ◌≡◌, refl, sym, ap, ◌∙◌, ◌⊎◌, inl, inr, subst, Bool, true, false, none, some, [], Bytes,
  Ensures, Ensures-ok, Ensures->>=,
}
use svitock.Session.{
  WebSocketSession, Transports, runs_task, completes, on_accept, write_step, do_read, make_session,
  run_session,
}
use svitock.Session
use svitock.Dispatcher.{dispatch}
use svitock.Runtime.{Platform, World}
use svitock.Runtime.Reachable.{Reach, Reach-append}
use svitock.Runtime.Reachable
use svitock.Runtime.Reading.{on_read, on_read-Reach}
use svitock.Runtime.Life.{
  put, with_session, LifeStep, Life, opens, accepts, reads, runs, writes, dies, visits, here, next,
}
use svitock.Runtime.Life.Connected.{put-cases, some_injective}
use svitock.Runtime.Life.Steps.{none_is_no_some, put-put}
use svitock.Runtime.Life.Events.{session_id-run_session, send-session_id}
use svitock.Runtime.Life.Writing.{Agrees, runs_task-Agrees, completes-Agrees}
use svitock.Runtime.Life.Notices.{Notice, nothing, notice, visit-Notice}
use svitock.Runtime.Life.Agreement.{Agree, Life-Agree}

module _ (p : Platform) where
  -- The identifiers of the sessions that were opened.
  abbrev pub Opens : {w w' : World p} → LifeStep p w w' → Bytes → Type 0
  Opens (opens address session_id vacant fresh) k = session_id ≡ k
  Opens (accepts address s n failed live h) k = ⊥
  Opens (reads address s n failed raw w' live h e) k = ⊥
  Opens (runs address s c live e) k = ⊥
  Opens (writes address s failed c live e) k = ⊥
  Opens (dies address s live released) k = ⊥
  Opens (visits stamp t processed w' e) k = ⊥

  abbrev pub Opened : {w w' : World p} → Life p w w' → Bytes → Type 0
  Opened here k = ⊥
  Opened (next r st) k = Opens st k ⊎ Opened r k

  -- A live session has this identifier.
  abbrev Lives : World p → Bytes → Type 0
  Lives w k = (a : ℕ) × (s : WebSocketSession) × (w.objects a ≡ some s) × (s.session_id ≡ k)

  -- A change at one address that keeps the identifier, and one that takes the session away.
  changed :
      (w : World p) (address : ℕ) (s s' : WebSocketSession)
      → w.objects address ≡ some s
      → s'.session_id ≡ s.session_id
      → (a : ℕ) (x : WebSocketSession) → put w.objects address (some s') a ≡ some x
      → Lives w x.session_id
  changed w address s s' live id a x h = elim (put-cases w.objects address a (some s') x h) [
    | inl (at, e) ↦ (address, s, live, sym id ∙ ap (λ y. y.session_id) (some_injective e))
    | inr (there, e) ↦ (a, x, e, refl)
  ]

  taken :
      (w : World p) (address a : ℕ) (x : WebSocketSession)
      → put w.objects address none a ≡ some x
      → Lives w x.session_id
  taken w address a x h = elim (put-cases w.objects address a none x h) [
    | inl (at, e) ↦ absurd (none_is_no_some e)
    | inr (there, e) ↦ (a, x, e, refl)
  ]

  accepted_id :
      (address n : ℕ) (t : Transports) (s : WebSocketSession) (failed : Bool)
      → (on_accept address (t, record s { accepting = n }) failed).1.session_id ≡ s.session_id
  unfolding on_accept do_read
  accepted_id address n t s true = refl
  accepted_id address n t s false = refl

  on_read-Lives :
      (w : World p) (address n : ℕ) (s : WebSocketSession) (failed : Bool) (raw : Bytes)
      → w.objects address ≡ some s
      → Ensures
          (λ w'. (a : ℕ) (x : WebSocketSession) → w'.objects a ≡ some x → Lives w x.session_id)
          (on_read p
            (with_session p w address (w.transports, record s { reads = n }))
            address
            (record s { reads = n })
            failed
            raw)
  unfolding on_read with_session do_read put
  on_read-Lives w address n s true raw live = changed w address s (record s { reads = n }) live refl
  on_read-Lives w address n s false raw live =
      Ensures->>= _ (dispatch p.json p.queue w.system s.session_id raw) _ λ system' a x h.
        changed w address s (do_read (record s { reads = n })) live refl a x
          (sym (put-put w.objects address (some (record s { reads = n })) _ a) ∙ h)

  notice-Lives :
      {w w' : World p}
      → Notice p w w'
      → (a : ℕ) (x : WebSocketSession) → w'.objects a ≡ some x
      → Lives w x.session_id
  notice-Lives (nothing t o) a x h = (a, x, ap (λ f. f a) (sym o) ∙ h, refl)
  notice-Lives {w} (notice k address s payload t found live o) a x h =
      changed w address s (Session.send s payload) live (send-session_id s payload) a x
        (ap (λ f. f a) (sym o) ∙ h)

  opened :
      (w : World p) (address : ℕ) (session_id : Bytes) (a : ℕ) (x : WebSocketSession)
      → put w.objects address (some (run_session (make_session session_id))) a ≡ some x
      → (session_id ≡ x.session_id) ⊎ Lives w x.session_id
  opened w address session_id a x h =
      elim (put-cases w.objects address a (some (run_session (make_session session_id))) x h) [
        | inl (at, e) ↦
            inl
              (sym (session_id-run_session session_id) ∙ ap (λ y. y.session_id) (some_injective e))
        | inr (there, e) ↦ inr (a, x, e, refl)
      ]

  LifeStep-Lives :
      {w w' : World p} (st : LifeStep p w w')
      → Agree p w
      → (a : ℕ) (x : WebSocketSession) → w'.objects a ≡ some x
      → Opens st x.session_id ⊎ Lives w x.session_id
  unfolding with_session
  LifeStep-Lives {w} (opens address session_id vacant fresh) v a x h =
      opened w address session_id a x h
  LifeStep-Lives {w} (accepts address s n failed live e) v a x h =
      inr (changed w address s _ live (accepted_id address n w.transports s failed) a x h)
  LifeStep-Lives {w} (reads address s n failed raw w' live h' e) v a x h =
      inr (Ensures-ok _ _ w' (on_read-Lives w address n s failed raw live) e a x h)
  LifeStep-Lives {w} (runs address s c live e) v a x h =
      let agrees =
        Ensures-ok (Agrees w.transports s) _ c
          (runs_task-Agrees w.transports s (v.sessions address s live)) e in
      inr (changed w address s c.1 live agrees.1 a x h)
  LifeStep-Lives {w} (writes address s failed c live e) v a x h =
      let agrees =
        Ensures-ok (Agrees w.transports s) _ c
          (completes-Agrees w.transports s (v.sessions address s live) failed) e in
      inr (changed w address s c.1 live agrees.1 a x h)
  LifeStep-Lives {w} (dies address s live released) v a x h = inr (taken w address a x h)
  LifeStep-Lives {w} (visits stamp t processed w' e) v a x h = inr (
      notice-Lives (Ensures-ok (λ r. Notice p w r.0) _ (w', processed) (visit-Notice p stamp w t) e)
        a x h)

module _ (p : Platform) (w : World p) (unbound : w.transports ≡ [])
    (vacant : (a : ℕ) → w.objects a ≡ none) where
  pub Lives-Opened :
      {w' : World p} (r : Life p w w') (a : ℕ) (x : WebSocketSession)
      → w'.objects a ≡ some x
      → Opened p r x.session_id
  Lives-Opened here a x h = absurd (none_is_no_some (sym (vacant a) ∙ h))
  Lives-Opened (next {v} r st) a x h =
      elim (LifeStep-Lives p st (Life-Agree p w v unbound vacant r) a x h) [
        | inl new ↦ inl new
        | inr (b, y, live, id) ↦ inr (subst (Opened p r) id (Lives-Opened r b y live))
      ]

  -- One step is a run of the steps of Runtime.Reachable.
  LifeStep-Reach :
      (Connected : Bytes → Type 0) {v w' : World p} (r : Life p w v) (st : LifeStep p v w')
      → ((k : Bytes) → Opened p r k → Connected k)
      → Reach p Connected v w'
  unfolding with_session
  LifeStep-Reach Connected {v} r (opens address session_id free fresh) c =
      Reachable.next Reachable.here (Reachable.connects _ _)
  LifeStep-Reach Connected {v} r (accepts address s n failed live e) c =
      Reachable.next Reachable.here (Reachable.connects _ _)
  LifeStep-Reach Connected {v} r (reads address s n failed raw w' live h e) c =
      Reach-append p Connected (Reachable.next Reachable.here (Reachable.connects _ _)) (
        on_read-Reach p Connected (with_session p v address (v.transports, record s { reads = n }))
          address (record s { reads = n }) failed raw w'
          (c s.session_id (Lives-Opened r address s live)) e)
  LifeStep-Reach Connected {v} r (runs address s o live e) c =
      Reachable.next Reachable.here (Reachable.connects _ _)
  LifeStep-Reach Connected {v} r (writes address s failed o live e) c =
      Reachable.next Reachable.here (Reachable.connects _ _)
  LifeStep-Reach Connected {v} r (dies address s live released) c =
      Reachable.next Reachable.here (Reachable.connects _ _)
  LifeStep-Reach Connected {v} r (visits stamp t processed w' e) c =
      Reachable.next Reachable.here (Reachable.visits stamp t processed w' e)

  pub Life-Reach :
      (Connected : Bytes → Type 0) {w' : World p} (r : Life p w w')
      → ((k : Bytes) → Opened p r k → Connected k)
      → Reach p Connected w w'
  Life-Reach Connected here c = Reachable.here
  Life-Reach Connected (next r st) c =
      Reach-append p Connected (Life-Reach Connected r (λ k o. c k (inr o)))
        (LifeStep-Reach Connected r st (λ k o. c k (inr o)))
