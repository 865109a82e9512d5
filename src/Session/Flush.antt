-- ===== src/Session/Flush.antt =====
-- The writing half of a session comes to rest: what was sent is delivered.
use svitock.Base.{
  ℕ, zero, suc, ◌≡◌, refl, false, List, [], ◌∷◌, ◌++◌, Bytes, length, arith, append_assoc,
  append-nil,
}
use svitock.Session.{
  WebSocketSession, Transports, WriteEvent, runs_task, completes, write_step, write_steps,
}
use svitock.Session.Writes.{IsWriting, IsOrdered, Returns, Returns->>=, Returns-mono}

abbrev pub repeat : ℕ → WriteEvent → List WriteEvent → List WriteEvent
repeat zero e es = es
repeat (suc n) e es = e ∷ repeat n e es

-- The strand runs what is posted, then the socket completes what is queued.
abbrev pub settling : WebSocketSession → List WriteEvent
settling s =
    repeat (length s.posted) runs_task
      (repeat (length (s.write_queue ++ s.posted)) (completes false) [])

-- The state of a session that will deliver `rest` after `done`.
abbrev Will : List Bytes → List Bytes → List Bytes → WebSocketSession → Type 0
Will done queue posted s =
    (s.delivered ≡ done) × (s.write_queue ≡ queue) × (s.posted ≡ posted) × IsWriting s

run_one :
    (done queue : List Bytes) (p : Bytes) (ps : List Bytes) (t : Transports) (s : WebSocketSession)
    → Will done queue (p ∷ ps) s
    → Returns (Will done (queue ++ p ∷ []) ps) (write_step (t, s) runs_task)
unfolding write_step
run_one done [] p ps t s h = ground arith
run_one done (w ∷ ws) p ps t s h = ground arith

complete_one :
    (done : List Bytes) (w : Bytes) (ws : List Bytes) (t : Transports) (s : WebSocketSession)
    → Will done (w ∷ ws) [] s
    → Returns (Will (done ++ w ∷ []) ws []) (write_step (t, s) (completes false))
unfolding write_step
complete_one done w [] t s h = ground arith
complete_one done w (x ∷ ws) t s h = ground arith

complete_all :
    (done queue : List Bytes) (t : Transports) (s : WebSocketSession)
    → Will done queue [] s
    → Returns
        (Will (done ++ queue) [] [])
        (write_steps (t, s) (repeat (length queue) (completes false) []))
unfolding write_steps
complete_all done [] t s h = rw (append-nil done) h
complete_all done (w ∷ ws) t s h =
    Returns->>= (Will (done ++ w ∷ []) ws []) (Will (done ++ (w ∷ ws)) [] [])
      (write_step (t, s) (completes false))
      (λ c. write_steps c (repeat (length ws) (completes false) []))
      (λ t' s' k. rw (← append_assoc done (w ∷ []) ws) (complete_all (done ++ w ∷ []) ws t' s' k))
      (complete_one done w ws t s h)

run_all :
    (done queue posted : List Bytes) (t : Transports) (s : WebSocketSession)
    → Will done queue posted s
    → Returns (Will (done ++ (queue ++ posted)) [] []) (
        write_steps
          (t, s)
          (repeat
            (length posted)
            runs_task
            (repeat (length (queue ++ posted)) (completes false) [])))
unfolding write_steps
run_all done queue [] t s h = rw (append-nil queue) (complete_all done queue t s h)
run_all done queue (p ∷ ps) t s h =
    Returns->>= (Will done (queue ++ p ∷ []) ps) (Will (done ++ (queue ++ p ∷ ps)) [] [])
      (write_step (t, s) runs_task)
      (λ c.
        write_steps c
          (repeat (length ps) runs_task (repeat (length (queue ++ p ∷ ps)) (completes false) [])))
      (λ t' s' k. rw (← append_assoc queue (p ∷ []) ps) (run_all done (queue ++ p ∷ []) ps t' s' k))
      (run_one done queue p ps t s h)

-- From any state in which no write has failed, running what is posted and completing what is queued
-- without an error returns, delivers all that was sent, in order, and leaves nothing outstanding.
pub write_steps-settling :
    (sent : List Bytes) (t : Transports) (s : WebSocketSession)
    → IsOrdered sent s
    → IsWriting s
    → Returns
        (λ s'. (s'.delivered ≡ sent) × (s'.write_queue ≡ []) × (s'.posted ≡ []) × (s'.writing ≡ []))
        (write_steps (t, s) (settling s))
write_steps-settling sent t s v w =
    Returns-mono (Will (s.delivered ++ (s.write_queue ++ s.posted)) [] [])
      (λ s'. (s'.delivered ≡ sent) × (s'.write_queue ≡ []) × (s'.posted ≡ []) × (s'.writing ≡ []))
      (write_steps (t, s) (settling s)) (λ s' h. ground arith)
      (run_all s.delivered s.write_queue s.posted t s (refl, refl, refl, w))
