-- ===== src/Tests/Sessions.antt =====
-- The writing half of a session at concrete inputs.
use svitock.Base.{◌≡◌, refl, ◌≢◌, true, false, [], ◌∷◌, List, codes, ok, length, ◌≤◌, inl}
use svitock.Session.{
  WebSocketSession, WriteEvent, sends, runs_task, completes, make_session, write_step, write_steps,
}
use svitock.Session.Writes.{IsOrdered, Returns, sent_in, write_steps-make_session}
use svitock.Session.Failure.{write_steps-failed}
use svitock.Session.Flush.{settling, write_steps-settling}

abbrev chatter : List WriteEvent
chatter =
    sends (codes "a")
    ∷ sends (codes "b")
    ∷ runs_task
    ∷ completes false
    ∷ runs_task
    ∷ sends (codes "c")
    ∷ []

write_steps-make_session_example :
    Returns
      (λ s. IsOrdered (sent_in chatter) s × (length s.writing ≤ 1))
      (write_steps ([], make_session (codes "1")) chatter)
write_steps-make_session_example = write_steps-make_session (codes "1") [] chatter

-- One payload delivered, one being written, one on the strand.
abbrev busy : WebSocketSession
busy = record {
  session_id = codes "1";
  write_queue = codes "b" ∷ [];
  posted = codes "c" ∷ [];
  writing = codes "b" ∷ [];
  delivered = codes "a" ∷ [];
  reads = 1;
  accepting = 0;
}

chatter_leaves_busy :
    write_steps
      ([], record busy { write_queue = []; posted = []; writing = []; delivered = [] })
      chatter
    ≡ ok ([], busy)
unfolding write_steps write_step
chatter_leaves_busy = refl

abbrev busy-IsOrdered : IsOrdered (codes "a" ∷ codes "b" ∷ codes "c" ∷ []) busy
busy-IsOrdered = record { in_order = refl; one_write = inl refl }

busy_writes : busy.writing ≢ []
busy_writes = λ h. cc

write_steps-settling_example :
    Returns
      (λ s.
        (s.delivered ≡ codes "a" ∷ codes "b" ∷ codes "c" ∷ [])
        × (s.write_queue ≡ [])
        × (s.posted ≡ [])
        × (s.writing ≡ []))
      (write_steps ([], busy) (settling busy))
write_steps-settling_example =
    write_steps-settling (codes "a" ∷ codes "b" ∷ codes "c" ∷ []) [] busy busy-IsOrdered refl

write_steps-failed_example :
    Returns
      (λ s. (s.writing ≡ []) × (s.delivered ≡ codes "a" ∷ []))
      (write_steps ([], busy) (completes true ∷ runs_task ∷ completes false ∷ []))
write_steps-failed_example =
    write_steps-failed (codes "a" ∷ codes "b" ∷ codes "c" ∷ []) [] busy
      (runs_task ∷ completes false ∷ []) busy-IsOrdered busy_writes
