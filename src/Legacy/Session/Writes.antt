-- ===== src/Legacy/Session/Writes.antt =====
-- The old session writes as the session in use does.
use svitock.Base.{
  ℕ, ◌≡◌, refl, Bool, true, false, List, [], ◌∷◌, Bytes, Outcome, ok, throws, ◌>>=◌, subst,
}
use svitock.Session.{WebSocketSession, Transports, WriteEvent, sends, runs_task, completes}
use svitock.Session
use svitock.Legacy.{SessionManager}
use svitock.Legacy.Session.{
  LegacyConnection, LegacyEvent, writes, becomes, write_step, legacy_step, legacy_steps,
}

-- The session in use with the same queues, under some id.
abbrev pub as_session : Bytes → LegacyConnection → WebSocketSession
as_session session_id s = record {
  session_id = session_id;
  write_queue = s.write_queue;
  posted = s.posted;
  writing = s.writing;
  delivered = s.delivered;
  reads = s.reads;
  accepting = s.accepting;
}

-- The two runs return together, with the same queues, or end with the same exception.
abbrev pub Agree :
    Bytes
    → Outcome (SessionManager × LegacyConnection)
    → Outcome (Transports × WebSocketSession)
    → Type 0
Agree id (ok (manager, s)) (ok (transports, s')) = as_session id s ≡ s'
Agree id (throws x) (throws y) = x ≡ y
Agree id (ok c) (throws y) = ⊥
Agree id (throws x) (ok c) = ⊥

module _ (id : Bytes) (m : SessionManager) (t : Transports) where
  abbrev connection :
      Bytes → List Bytes → List Bytes → List Bytes → List Bytes → ℕ → ℕ → LegacyConnection
  connection user_id queue posted writing delivered reads accepting = record {
    user_id = user_id;
    write_queue = queue;
    posted = posted;
    writing = writing;
    delivered = delivered;
    reads = reads;
    accepting = accepting;
  }

  -- The queues decide what happens.
  runs_task-Agree :
      (user_id : Bytes) (queue posted writing delivered : List Bytes) (reads accepting : ℕ)
      → Agree id
          (write_step
            (m, connection user_id queue posted writing delivered reads accepting)
            runs_task)
          (Session.write_step
            (t, as_session id (connection user_id queue posted writing delivered reads accepting))
            runs_task)
  unfolding write_step Session.write_step
  runs_task-Agree user_id queue [] writing delivered reads accepting = refl
  runs_task-Agree user_id [] (p ∷ ps) writing delivered reads accepting = refl
  runs_task-Agree user_id (w ∷ ws) (p ∷ ps) writing delivered reads accepting = refl

  completes-Agree :
      (user_id : Bytes) (queue posted writing delivered : List Bytes) (reads accepting : ℕ)
      (failed : Bool)
      → Agree id
          (write_step
            (m, connection user_id queue posted writing delivered reads accepting)
            (completes failed))
          (Session.write_step
            (t, as_session id (connection user_id queue posted writing delivered reads accepting))
            (completes failed))
  unfolding write_step Session.write_step
  completes-Agree user_id queue posted [] delivered reads accepting failed = refl
  completes-Agree user_id queue posted (v ∷ vs) delivered reads accepting true = refl
  completes-Agree user_id [] posted (v ∷ vs) delivered reads accepting false = refl
  completes-Agree user_id (w ∷ []) posted (v ∷ vs) delivered reads accepting false = refl
  completes-Agree user_id (w ∷ x ∷ ws) posted (v ∷ vs) delivered reads accepting false = refl

  write_step-Agree :
      (s : LegacyConnection) (e : WriteEvent)
      → Agree id (write_step (m, s) e) (Session.write_step (t, as_session id s) e)
  unfolding write_step Session.write_step
  write_step-Agree s (sends message) = refl
  write_step-Agree s runs_task =
      runs_task-Agree s.user_id s.write_queue s.posted s.writing s.delivered s.reads s.accepting
  write_step-Agree s (completes failed) =
      completes-Agree s.user_id s.write_queue s.posted s.writing s.delivered s.reads s.accepting
        failed

-- What of the events concerns the writing half.
abbrev pub writes_in : List LegacyEvent → List WriteEvent
writes_in [] = []
writes_in (writes e ∷ es) = e ∷ writes_in es
writes_in (becomes user_id ∷ es) = writes_in es

Agree->>= :
    (id : Bytes) (a : Outcome (SessionManager × LegacyConnection))
    (b : Outcome (Transports × WebSocketSession))
    (f : SessionManager × LegacyConnection → Outcome (SessionManager × LegacyConnection))
    (g : Transports × WebSocketSession → Outcome (Transports × WebSocketSession))
    → Agree id a b
    → ((m : SessionManager) (t : Transports) (s : LegacyConnection)
        → Agree id (f (m, s)) (g (t, as_session id s)))
    → Agree id (a >>= f) (b >>= g)
Agree->>= id (ok (m, s)) (ok (t, s')) f g same next =
    subst (λ r. Agree id (f (m, s)) (g (t, r))) same (next m t s)
Agree->>= id (throws x) (throws y) f g same next = same
Agree->>= id (ok c) (throws y) f g same next = absurd same
Agree->>= id (throws x) (ok c) f g same next = absurd same

-- Whatever is sent, run and completed on an old session, whoever it belongs to in between, and
-- whatever is registered: it returns exactly if the session in use does at the same calls, and then
-- has the same tasks, queue, outstanding writes and delivered messages.
pub legacy_steps-Agree :
    (id : Bytes) (m : SessionManager) (t : Transports) (s : LegacyConnection)
    (es : List LegacyEvent)
    → Agree id (legacy_steps (m, s) es) (Session.write_steps (t, as_session id s) (writes_in es))
unfolding legacy_steps legacy_step Session.write_steps
legacy_steps-Agree id m t s [] = refl
legacy_steps-Agree id m t s (becomes user_id ∷ es) =
    legacy_steps-Agree id m t (record s { user_id = user_id }) es
legacy_steps-Agree id m t s (writes e ∷ es) =
    Agree->>= id (write_step (m, s) e) (Session.write_step (t, as_session id s) e) _ _
      (write_step-Agree id m t s e) (λ m' t' s'. legacy_steps-Agree id m' t' s' es)
