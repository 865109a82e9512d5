-- ===== src/Runtime/Life/Events.antt =====
-- What one handler of a session makes of it.
use svitock.Base.{ℕ, suc, ◌≤◌, ◌≡◌, refl, ap, ◌⊎◌, ◌↔◌, inl, [], Bytes, arith}
use svitock.Session.{WebSocketSession, make_session, run_session, do_read, send}
use svitock.Session.Writes.{IsWriting, HasFailed}
use svitock.Runtime.Life.Connected.{IsOpen, IsSession}

-- Of a session whose handshake is over, its writing half alone is to be looked at.
pub settled-IsSession :
    (s : WebSocketSession) → s.accepting ≡ 0 → s.reads ≤ 1 → IsWriting s ⊎ HasFailed s → IsSession s
settled-IsSession s a r w = record {
  single = omega (arith, a);
  one_write = w;
  silent = λ h. absurd (omega (arith, a, h));
}

pub run_session-IsSession : (session_id : Bytes) → IsSession (run_session (make_session session_id))
unfolding run_session make_session
run_session-IsSession session_id = record {
  single = omega arith;
  one_write = inl refl;
  silent = λ h. refl;
}

pub session_id-run_session :
    (session_id : Bytes) → (run_session (make_session session_id)).session_id ≡ session_id
unfolding run_session make_session
session_id-run_session session_id = refl

pub run_session-closed : (session_id : Bytes) → IsOpen (run_session (make_session session_id)) → ⊥
unfolding run_session make_session
run_session-closed session_id (h, w) = omega arith

-- A handshake that is outstanding is the only operation.
pub silent_writes :
    (s : WebSocketSession)
    → s.accepting ≡ 1
    → IsSession s
    → (s.writing ≡ []) × (s.write_queue ≡ []) × (s.posted ≡ []) × (s.reads ≡ 0)
unfolding run_session make_session
silent_writes s h v =
    let e = v.silent h in
    (ap (λ z. z.writing) e, ap (λ z. z.write_queue) e, ap (λ z. z.posted) e, ap (λ z. z.reads) e)

module _ (s : WebSocketSession) (v : IsSession s) where
  pub on_accept-IsSession : (n : ℕ) → s.accepting ≡ suc n → (n ≡ 0) × (s.reads ≡ 0) × IsWriting s
  on_accept-IsSession n h =
      let n_zero : n ≡ 0 = omega (arith, v.single) in
      let (w, q, p, r) = silent_writes s (omega (arith, n_zero)) v in (n_zero, r, rw (w, q) refl)

  pub accepted-IsSession : (n : ℕ) → s.accepting ≡ suc n → IsSession (record s { accepting = n })
  accepted-IsSession n h =
      let (n_zero, r, w) = on_accept-IsSession n h in
      settled-IsSession (record s { accepting = n }) n_zero (omega (arith, r)) (inl w)

  pub opened-IsSession :
      (n : ℕ)
      → s.accepting ≡ suc n
      → IsSession (do_read (record s { accepting = n }))
        × IsOpen (do_read (record s { accepting = n }))
  unfolding do_read
  opened-IsSession n h =
      let (n_zero, r, w) = on_accept-IsSession n h in
      (
        settled-IsSession (do_read (record s { accepting = n })) n_zero (omega (arith, r)) (inl w),
        (omega (arith, r), w),
      )

  pub read-IsSession : (n : ℕ) → s.reads ≡ suc n → IsSession (record s { reads = n }) × (n ≡ 0)
  read-IsSession n h =
      let single = v.single in
      (
        settled-IsSession (record s { reads = n }) (omega (arith, single, h))
            (omega (arith, single, h)) v.one_write,
        omega (arith, single, h),
      )

  pub reread-IsSession :
      (n : ℕ)
      → s.reads ≡ suc n
      → IsSession (do_read (record s { reads = n }))
        × ((do_read (record s { reads = n })).reads ≡ s.reads)
  unfolding do_read
  reread-IsSession n h =
      let single = v.single in
      (
        settled-IsSession (do_read (record s { reads = n })) (omega (arith, single, h))
            (omega (arith, single, h)) v.one_write,
        omega (arith, h),
      )

  -- A payload is posted to a session that is open.
  pub send-IsSession : (payload : Bytes) → IsOpen s → IsSession (send s payload)
  unfolding send
  send-IsSession payload (reading, w) =
      let single = v.single in
      settled-IsSession (send s payload) (omega (arith, single, reading)) (omega (arith, reading))
        v.one_write

pub send-session_id :
    (s : WebSocketSession) (payload : Bytes) → (send s payload).session_id ≡ s.session_id
unfolding send
send-session_id s payload = refl

pub send-IsOpen : (s : WebSocketSession) (payload : Bytes) → IsOpen s ↔ IsOpen (send s payload)
unfolding send
send-IsOpen s payload = (λ h. h, λ h. h)
