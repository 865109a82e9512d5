-- ===== src/Runtime/Life.antt =====
-- infrastructure/network/websocket: the sessions of a running server, from the accept of a
-- connection to the last handler of its session, together with the threads that dispatch what they
-- read and the workers that send to them.
pub mod Connected
pub mod Steps
pub mod Events
pub mod Writing
pub mod Notices
pub mod Agreement
pub mod Reached
pub mod Origins
pub mod Sent
use svitock.Base.{
  ℕ, zero, suc, ◌==◌, ◌≡◌, ◌≢◌, Bool, Option, none, some, [], Bytes, ok, if◌then◌else◌,
}
use svitock.Actor.Payload.{ActorType}
use svitock.Session.{
  WebSocketSession, Transports, WriteEvent, runs_task, completes, make_session, run_session,
  on_accept, write_step,
}
use svitock.Runtime.{Platform, Stamp, World}
use svitock.Runtime.Worker.{visit}
use svitock.Runtime.Reading.{on_read}

-- The sessions, with another one, or none, at an address.
unfoldable pub put :
    (ℕ → Option WebSocketSession) → ℕ → Option WebSocketSession → ℕ → Option WebSocketSession
put objects address o a = if a == address then o else objects a

-- No operation is outstanding and no task waits, so nothing holds a `shared_ptr` to the session.
abbrev pub IsReleased : WebSocketSession → Type 0
IsReleased s = (s.accepting ≡ 0) × (s.reads ≡ 0) × (s.writing ≡ []) × (s.posted ≡ [])

module _ (p : Platform) where
  unfoldable pub with_session : World p → ℕ → Transports × WebSocketSession → World p
  with_session w address (transports, s) = record w {
    transports = transports;
    objects = put w.objects address (some s);
  }

  -- One step of a thread, while no exception ends the process.
  pub data LifeStep (w : World p) : World p → Type 0 where
    -- A connection becomes a session at a free address, with an identifier of its own, and runs.
    opens :
        (address : ℕ) (session_id : Bytes)
        → w.objects address ≡ none
        → ((a : ℕ) (s : WebSocketSession) → w.objects a ≡ some s → s.session_id ≢ session_id)
        → LifeStep w (with_session w address (w.transports, run_session (make_session session_id)))
    -- An outstanding handshake, read, task or write of a live session completes.
    accepts :
        (address : ℕ) (s : WebSocketSession) (n : ℕ) (failed : Bool)
        → w.objects address ≡ some s
        → s.accepting ≡ suc n
        → LifeStep w (
            with_session w address
              (on_accept address (w.transports, record s { accepting = n }) failed))
    reads :
        (address : ℕ) (s : WebSocketSession) (n : ℕ) (failed : Bool) (raw : Bytes) (w' : World p)
        → w.objects address ≡ some s
        → s.reads ≡ suc n
        → on_read p
            (with_session w address (w.transports, record s { reads = n }))
            address
            (record s { reads = n })
            failed
            raw
          ≡ ok w'
        → LifeStep w w'
    runs :
        (address : ℕ) (s : WebSocketSession) (c : Transports × WebSocketSession)
        → w.objects address ≡ some s
        → write_step (w.transports, s) runs_task ≡ ok c
        → LifeStep w (with_session w address c)
    writes :
        (address : ℕ) (s : WebSocketSession) (failed : Bool) (c : Transports × WebSocketSession)
        → w.objects address ≡ some s
        → write_step (w.transports, s) (completes failed) ≡ ok c
        → LifeStep w (with_session w address c)
    -- The last `shared_ptr` to a session is gone.
    dies :
        (address : ℕ) (s : WebSocketSession)
        → w.objects address ≡ some s
        → IsReleased s
        → LifeStep w (record w { objects = put w.objects address none })
    -- A worker visits a mailbox.
    visits :
        (stamp : Stamp p) (t : ActorType) (processed : Bool) (w' : World p)
        → visit p stamp w t ≡ ok (w', processed)
        → LifeStep w w'

  pub data Life (w : World p) : World p → Type 0 where
    here : Life w w
    next : {v u : World p} → Life w v → LifeStep v u → Life w u
