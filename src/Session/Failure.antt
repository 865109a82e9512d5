-- ===== src/Session/Failure.antt =====
-- The writing half of a session after a write that fails.
use svitock.Base.{◌≡◌, refl, ◌≢◌, true, List, [], ◌∷◌, Bytes, arith}
use svitock.Session.{
  WebSocketSession, Transports, WriteEvent, sends, runs_task, completes, write_step, write_steps,
}
use svitock.Session.Writes.{HasFailed, IsOrdered, Returns, Returns->>=, Returns-mono}

abbrev IsDead : List Bytes → WebSocketSession → Type 0
IsDead done s = HasFailed s × (s.delivered ≡ done)

write_step-IsDead :
    (done : List Bytes) (t : Transports) (s : WebSocketSession) (e : WriteEvent)
    → IsDead done s
    → Returns (IsDead done) (write_step (t, s) e)
unfolding write_step
write_step-IsDead done t s (sends payload) h = h
write_step-IsDead done t s runs_task h = ground arith
write_step-IsDead done t s (completes failed) h = ground arith

write_steps-IsDead :
    (done : List Bytes) (t : Transports) (s : WebSocketSession) (es : List WriteEvent)
    → IsDead done s
    → Returns (IsDead done) (write_steps (t, s) es)
unfolding write_steps
write_steps-IsDead done t s [] h = h
write_steps-IsDead done t s (e ∷ es) h =
    Returns->>= (IsDead done) (IsDead done) (write_step (t, s) e) (λ c. write_steps c es)
      (λ t' s' v. write_steps-IsDead done t' s' es v) (write_step-IsDead done t s e h)

failed_write-IsDead :
    (sent : List Bytes) (t : Transports) (s : WebSocketSession) (wq : List Bytes)
    → s.write_queue ≡ wq
    → IsOrdered sent s
    → s.writing ≢ []
    → Returns (IsDead s.delivered) (write_step (t, s) (completes true))
unfolding write_step
failed_write-IsDead sent t s [] e v h = ground arith
failed_write-IsDead sent t s (w ∷ ws) e v h = ground arith

-- When the outstanding write of a session completes with an error, nothing is written or delivered
-- any more, whatever is sent, run or completed afterwards, and no handler takes from an empty queue.
pub write_steps-failed :
    (sent : List Bytes) (t : Transports) (s : WebSocketSession) (es : List WriteEvent)
    → IsOrdered sent s
    → s.writing ≢ []
    → Returns
        (λ s'. (s'.writing ≡ []) × (s'.delivered ≡ s.delivered))
        (write_steps (t, s) (completes true ∷ es))
unfolding write_steps
write_steps-failed sent t s es v h =
    Returns-mono (IsDead s.delivered) (λ s'. (s'.writing ≡ []) × (s'.delivered ≡ s.delivered))
      (write_steps (t, s) (completes true ∷ es)) (λ s' d. (d.0.0, d.1))
      (Returns->>= (IsDead s.delivered) (IsDead s.delivered) (write_step (t, s) (completes true))
        (λ c. write_steps c es) (λ t' s' d. write_steps-IsDead s.delivered t' s' es d)
        (failed_write-IsDead sent t s s.write_queue refl v h))
