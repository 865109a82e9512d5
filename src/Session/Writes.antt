-- ===== src/Session/Writes.antt =====
-- The writing half of a session: order, and at most one write at a time.
use svitock.Base.{
  ◌≤◌, ◌≡◌, refl, ◌⊎◌, inl, inr, Bool, true, false, List, [], ◌∷◌, ◌++◌, Bytes, Outcome, ok, throws,
  ◌>>=◌, length, take, is_empty, arith, append_assoc, append-nil,
}
use svitock.Session.{
  WebSocketSession, Transports, WriteEvent, sends, runs_task, completes, make_session, write_step,
  write_steps,
}

-- Either the front of the queue, if there is one, is being written, and nothing else; or a write
-- has failed, and none will follow.
abbrev pub IsWriting : WebSocketSession → Type 0
IsWriting s = s.writing ≡ take 1 s.write_queue

abbrev pub HasFailed : WebSocketSession → Type 0
HasFailed s = (s.writing ≡ []) × (is_empty s.write_queue ≡ false)

-- What was sent is what was delivered, what is queued and what waits on the strand, in this order.
pub record IsOrdered (sent : List Bytes) (s : WebSocketSession) : Type 0 where
  pub in_order : sent ≡ s.delivered ++ (s.write_queue ++ s.posted)
  pub one_write : IsWriting s ⊎ HasFailed s

abbrev pub sent_by : WriteEvent → List Bytes
sent_by (sends payload) = payload ∷ []
sent_by runs_task = []
sent_by (completes failed) = []

abbrev pub sent_in : List WriteEvent → List Bytes
sent_in [] = []
sent_in (e ∷ es) = sent_by e ++ sent_in es

-- A call returns, with a session of which `P` holds.
abbrev pub Returns : (WebSocketSession → Type 0) → Outcome (Transports × WebSocketSession) → Type 0
Returns P (ok (transports, s)) = P s
Returns P (throws e) = ⊥

runs_task-IsOrdered :
    (sent : List Bytes) (t : Transports) (s : WebSocketSession) (wq posted : List Bytes)
    → s.write_queue ≡ wq
    → s.posted ≡ posted
    → IsOrdered sent s
    → Returns (IsOrdered sent) (write_step (t, s) runs_task)
unfolding write_step
runs_task-IsOrdered sent t s wq [] ew ep v = rw (ep, write_step) v
runs_task-IsOrdered sent t s [] (p ∷ ps) ew ep v = ground (arith, append-nil s.delivered)
runs_task-IsOrdered sent t s (w ∷ ws) (p ∷ ps) ew ep v =
    ground (arith, append_assoc (w ∷ ws) (p ∷ []) ps)

completes-IsOrdered :
    (sent : List Bytes) (t : Transports) (s : WebSocketSession) (failed : Bool) (wq : List Bytes)
    → s.write_queue ≡ wq
    → IsOrdered sent s
    → Returns (IsOrdered sent) (write_step (t, s) (completes failed))
unfolding write_step
completes-IsOrdered sent t s failed [] e v = ground arith
completes-IsOrdered sent t s true (w ∷ ws) e v = ground arith
completes-IsOrdered sent t s false (w ∷ []) e v =
    ground (arith, append_assoc s.delivered (w ∷ []) s.posted)
completes-IsOrdered sent t s false (w ∷ x ∷ ws) e v =
    ground (arith, append_assoc s.delivered (w ∷ []) ((x ∷ ws) ++ s.posted))

pub write_step-IsOrdered :
    (sent : List Bytes) (t : Transports) (s : WebSocketSession) (e : WriteEvent)
    → IsOrdered sent s
    → Returns (IsOrdered (sent ++ sent_by e)) (write_step (t, s) e)
unfolding write_step
write_step-IsOrdered sent t s (sends payload) v = record {
  in_order = rw v.in_order (simp append_assoc);
  one_write = v.one_write;
}
write_step-IsOrdered sent t s runs_task v =
    rw (append-nil sent) (runs_task-IsOrdered sent t s s.write_queue s.posted refl refl v)
write_step-IsOrdered sent t s (completes failed) v =
    rw (append-nil sent) (completes-IsOrdered sent t s failed s.write_queue refl v)

pub Returns->>= :
    (P Q : WebSocketSession → Type 0) (m : Outcome (Transports × WebSocketSession))
    (f : Transports × WebSocketSession → Outcome (Transports × WebSocketSession))
    → ((t : Transports) (s : WebSocketSession) → P s → Returns Q (f (t, s)))
    → Returns P m
    → Returns Q (m >>= f)
Returns->>= P Q (ok (t, s)) f k h = k t s h
Returns->>= P Q (throws e) f k h = absurd h

pub Returns-mono :
    (P Q : WebSocketSession → Type 0) (m : Outcome (Transports × WebSocketSession))
    → ((s : WebSocketSession) → P s → Q s)
    → Returns P m
    → Returns Q m
Returns-mono P Q (ok (t, s)) k h = k s h
Returns-mono P Q (throws e) k h = h

pub write_steps-IsOrdered :
    (sent : List Bytes) (t : Transports) (s : WebSocketSession) (es : List WriteEvent)
    → IsOrdered sent s
    → Returns (IsOrdered (sent ++ sent_in es)) (write_steps (t, s) es)
unfolding write_steps
write_steps-IsOrdered sent t s [] v = rw (append-nil sent) v
write_steps-IsOrdered sent t s (e ∷ es) v =
    Returns->>= (IsOrdered (sent ++ sent_by e)) (IsOrdered (sent ++ sent_in (e ∷ es)))
      (write_step (t, s) e) (λ c. write_steps c es)
      (λ t' s' v'.
        rw (← append_assoc sent (sent_by e) (sent_in es))
          (write_steps-IsOrdered (sent ++ sent_by e) t' s' es v'))
      (write_step-IsOrdered sent t s e v)

length-take_one : (xs : List Bytes) → length (take 1 xs) ≤ 1
length-take_one [] = omega arith
length-take_one (x ∷ xs) = omega arith

-- Whatever is sent, run and completed on a new session, in any order and with any errors: no
-- handler takes from an empty queue, at most one write is outstanding, and the payloads delivered,
-- then queued, then posted are those sent, in the order in which they were sent.
pub write_steps-make_session :
    (session_id : Bytes) (t : Transports) (es : List WriteEvent)
    → Returns
        (λ s. IsOrdered (sent_in es) s × (length s.writing ≤ 1))
        (write_steps (t, make_session session_id) es)
unfolding make_session
write_steps-make_session session_id t es =
    Returns-mono (IsOrdered (sent_in es)) (λ s. IsOrdered (sent_in es) s × (length s.writing ≤ 1))
      (write_steps (t, make_session session_id) es) (λ s v. (v, one s v))
      (write_steps-IsOrdered [] t (make_session session_id) es
        (record { in_order = refl; one_write = inl refl }))
  where
    one : (s : WebSocketSession) → IsOrdered (sent_in es) s → length s.writing ≤ 1
    one s v = elim v.one_write [
      | inl e ↦ rw e (length-take_one s.write_queue)
      | inr (e, queued) ↦ rw e (omega arith)
    ]
