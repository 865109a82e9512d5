-- ===== src/Actor/Mailbox.antt =====
-- core/actor/mailbox: a bounded queue of owned envelopes that can be closed.
pub mod Laws
pub mod Fifo
use svitock.Base.{ℕ, zero, suc, Bool, true, false, Option, none, some, List, [], ◌∷◌, if◌then◌else◌}
use svitock.Extern.Queue.{QueueLib}

-- `leaked` holds the envelopes that no pointer owns any more and that nothing has freed.
pub record Mailbox {A : Type 0} (q : QueueLib A) : Type 0 where
  pub queue : q.Queue
  pub active : Bool
  pub leaked : List A

module _ {A : Type 0} (q : QueueLib A) where
  -- The constructor.
  unfoldable pub make_mailbox : ℕ → Mailbox q
  make_mailbox capacity = record { queue = q.make capacity; active = true; leaked = [] }

  -- `push` releases the envelope before it knows whether the queue takes it.
  unfoldable pub push : Mailbox q → A → Mailbox q × Bool
  push m e =
      if m.active
      then (let (queue', accepted) = q.bounded_push m.queue e in
          (
            record m { queue = queue'; leaked = if accepted then m.leaked else e ∷ m.leaked },
            accepted,
          ))
      else (m, false)

  unfoldable pub pop : Mailbox q → Mailbox q × Option A
  pop m = let (queue', raw) = q.pop m.queue in (record m { queue = queue' }, raw)

  -- The destructor's loop, with fuel for its rounds. Each popped envelope is freed.
  unfoldable pub drain : ℕ → q.Queue → q.Queue
  drain zero s = s
  drain (suc fuel) s = elim (q.pop s).1 [ none ↦ (q.pop s).0 | some e ↦ drain fuel (q.pop s).0 ]

  -- The destructor.
  unfoldable pub destroy : ℕ → Mailbox q → Mailbox q
  destroy fuel m = record m { queue = drain fuel m.queue; active = false }
