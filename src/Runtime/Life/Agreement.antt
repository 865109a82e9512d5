-- ===== src/Runtime/Life/Agreement.antt =====
-- The registry of transports and the sessions of a server agree, whatever happens.
use mathlib.Core.Path.{fun_ext}
use svitock.Base.{
  ℕ, suc, ◌≡◌, refl, sym, subst, ◌∙◌, inl, inr, Bool, true, false, Option, none, some, [], Bytes,
  Ensures, Ensures-ok, Ensures->>=, arith,
}
use svitock.Base.Dict.{lookup}
use svitock.Session.{
  WebSocketSession, Transports, runs_task, completes, on_accept, write_step, do_read,
  bind_transport, unbind_transport,
}
use svitock.Session
use svitock.Dispatcher.{dispatch}
use svitock.Runtime.{Platform, World}
use svitock.Runtime.Worker.{visit}
use svitock.Runtime.Reading.{on_read}
use svitock.Runtime.Life.{
  put, with_session, LifeStep, Life, opens, accepts, reads, runs, writes, dies, visits, here, next,
}
use svitock.Runtime.Life.Connected.{IsOpen, IsConnected, some_injective}
use svitock.Runtime.Life.Steps.{
  none_is_no_some, put-put, change-IsConnected, bind-IsConnected, unbind-IsConnected,
  open-IsConnected, die-IsConnected,
}
use svitock.Runtime.Life.Events.{
  accepted-IsSession, opened-IsSession, read-IsSession, reread-IsSession, send-IsSession,
  send-IsOpen, send-session_id,
}
use svitock.Runtime.Life.Writing.{Agrees, runs_task-Agrees, completes-Agrees}
use svitock.Runtime.Life.Notices.{Notice, nothing, notice, visit-Notice}

module _ (t : Transports) (objects : ℕ → Option WebSocketSession) (v : IsConnected t objects)
    (address : ℕ) (s : WebSocketSession) (live : objects address ≡ some s) where
  on_accept-IsConnected :
      (n : ℕ) (failed : Bool)
      → s.accepting ≡ suc n
      → IsConnected
          (on_accept address (t, record s { accepting = n }) failed).0
          (put objects address (some (on_accept address (t, record s { accepting = n }) failed).1))
  unfolding on_accept do_read
  on_accept-IsConnected n true h =
      change-IsConnected t objects v address s live (record s { accepting = n })
        (accepted-IsSession s (v.sessions address s live) n h) refl (λ o. o) (λ o. o)
  on_accept-IsConnected n false h =
      let (is_session, is_open) = opened-IsSession s (v.sessions address s live) n h in
      bind-IsConnected t objects v address s live (do_read (record s { accepting = n })) is_session
        refl is_open

  agree-IsConnected :
      (c : Transports × WebSocketSession)
      → Agrees t s c
      → IsConnected c.0 (put objects address (some c.1))
  agree-IsConnected c (is_session, id, inl (registry, to, from)) =
      subst (λ t'. IsConnected t' (put objects address (some c.1))) (sym registry)
        (change-IsConnected t objects v address s live c.1 is_session id to from)
  agree-IsConnected c (is_session, id, inr (registry, closed)) =
      subst (λ t'. IsConnected t' (put objects address (some c.1))) (sym registry)
        (unbind-IsConnected t objects v address s live c.1 is_session id closed)

module _ (p : Platform) where
  abbrev pub Agree : World p → Type 0
  Agree w = IsConnected w.transports w.objects

  module _ (w : World p) (v : Agree w) (address : ℕ) (s : WebSocketSession)
      (live : w.objects address ≡ some s) where
    on_read-Agree :
        (n : ℕ) (failed : Bool) (raw : Bytes)
        → s.reads ≡ suc n
        → Ensures Agree (
            on_read p
              (with_session p w address (w.transports, record s { reads = n }))
              address
              (record s { reads = n })
              failed
              raw)
    unfolding on_read with_session do_read put
    on_read-Agree n true raw h =
        let (is_session, n_zero) = read-IsSession s (v.sessions address s live) n h in
        unbind-IsConnected w.transports w.objects v address s live (record s { reads = n })
          is_session refl (λ o. omega (arith, n_zero, o.0))
    on_read-Agree n false raw h =
        let (is_session, reading) = reread-IsSession s (v.sessions address s live) n h in
        Ensures->>= Agree (dispatch p.json p.queue w.system s.session_id raw) _ λ system'.
          subst (IsConnected w.transports)
            (sym (fun_ext (put-put w.objects address (some (record s { reads = n })) _)))
            (change-IsConnected w.transports w.objects v address s live
              (do_read (record s { reads = n })) is_session refl (λ o. (reading ∙ o.0, o.1))
              (λ o. (sym reading ∙ o.0, o.1)))

  notice-Agree : (w w' : World p) → Agree w → Notice p w w' → Agree w'
  notice-Agree w w' v (nothing t o) = rw (t, o) v
  notice-Agree w w' v (notice k address s payload t found live o) =
      let (x, e, id, is_open) = v.alive k address found in
      let is_open' = subst IsOpen (some_injective (sym e ∙ live)) is_open in
      rw (t, o)
        (change-IsConnected w.transports w.objects v address s live (Session.send s payload)
          (send-IsSession s (v.sessions address s live) payload is_open')
          (send-session_id s payload) (send-IsOpen s payload).0 (send-IsOpen s payload).1)

  LifeStep-Agree : {w w' : World p} → LifeStep p w w' → Agree w → Agree w'
  unfolding with_session
  LifeStep-Agree {w} (opens address session_id vacant fresh) v =
      open-IsConnected w.transports w.objects v address session_id vacant fresh
  LifeStep-Agree {w} (accepts address s n failed live h) v =
      on_accept-IsConnected w.transports w.objects v address s live n failed h
  LifeStep-Agree {w} (reads address s n failed raw w' live h e) v =
      Ensures-ok Agree _ w' (on_read-Agree w v address s live n failed raw h) e
  LifeStep-Agree {w} (runs address s c live e) v =
      agree-IsConnected w.transports w.objects v address s live c (
        Ensures-ok (Agrees w.transports s) (write_step (w.transports, s) runs_task) c
          (runs_task-Agrees w.transports s (v.sessions address s live)) e)
  LifeStep-Agree {w} (writes address s failed c live e) v =
      agree-IsConnected w.transports w.objects v address s live c (
        Ensures-ok (Agrees w.transports s) (write_step (w.transports, s) (completes failed)) c
          (completes-Agrees w.transports s (v.sessions address s live) failed) e)
  LifeStep-Agree {w} (dies address s live released) v =
      die-IsConnected w.transports w.objects v address s live (λ o. omega (arith, released.1, o.0))
  LifeStep-Agree {w} (visits stamp t processed w' e) v = notice-Agree w w' v (
      Ensures-ok (λ r. Notice p w r.0) (visit p stamp w t) (w', processed)
        (visit-Notice p stamp w t) e)

  nothing-Agree : (w : World p) → w.transports ≡ [] → ((a : ℕ) → w.objects a ≡ none) → Agree w
  unfolding lookup
  nothing-Agree w unbound vacant = record {
    sessions = λ a s h. absurd (none_is_no_some (sym (vacant a) ∙ h));
    unique = λ a b s t h. absurd (none_is_no_some (sym (vacant a) ∙ h));
    alive = λ k a h. absurd (none_is_no_some (rw unbound at h));
    found = λ a s h. absurd (none_is_no_some (sym (vacant a) ∙ h));
  }

  -- In every state that a server reaches from one without sessions, as connections become sessions
  -- with identifiers of their own, as handshakes, reads, tasks and writes complete, each with an
  -- error or without one, as sessions are freed and as workers visit the mailboxes, in any order:
  -- the registry leads to the sessions that read and have not failed to write, each at its own
  -- address, and to no others; no session has more than one handshake or read outstanding; and
  -- nothing is sent to a session before its handshake is over.
  pub Life-Agree :
      (w w' : World p)
      → w.transports ≡ []
      → ((a : ℕ) → w.objects a ≡ none)
      → Life p w w'
      → IsConnected w'.transports w'.objects
  Life-Agree w w' unbound vacant here = nothing-Agree w unbound vacant
  Life-Agree w w' unbound vacant (next r st) = LifeStep-Agree st (Life-Agree w _ unbound vacant r)
