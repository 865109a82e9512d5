-- ===== src/Runtime/Settling/Quiet.antt =====
-- Enough rounds leave nothing to do.
use svitock.Base.{
  suc, ◌-◌, ◌≤◌, ◌≡◌, refl, ◌∙◌, Bool, true, false, List, [], ◌∷◌, All, length, Ensures,
  Ensures->>=_eq, Ensures-mono, Ensures-if_true, arith,
}
use svitock.Extern.Queue.{IsFifo}
use svitock.Actor.Payload.{
  ActorType, ActorEnvelope, SendMessageEvent, session, chat, message, storage,
}
use svitock.Actor.System.{ActorSystem}
use svitock.Actor.System.Routing.{queued}
use svitock.Runtime.{Platform, Stamp, World}
use svitock.Runtime.Worker.{round, worker_loop}
use svitock.Runtime.Provenance.{IsSound}
use svitock.Runtime.Pipeline.{Visited, Covers}
use svitock.Runtime.Load.{cost_positive, weigh, load}
use svitock.Runtime.Settling.{IsProgress, round-IsProgress}

weigh-zero :
    {Json : Type 0} (t : ActorType) (es : List (ActorEnvelope Json)) → weigh t es ≡ 0 → es ≡ []
weigh-zero t [] h = refl
weigh-zero t (e ∷ es) h = absurd (omega (arith, h, cost_positive t e.payload))

module _ (p : Platform) where
  -- No envelope waits for any actor.
  abbrev pub IsQuiet : ActorSystem p.queue → Type 0
  IsQuiet s = (t : ActorType) → queued p.queue s t ≡ []

  load-IsQuiet : (s : ActorSystem p.queue) → load p s ≡ 0 → IsQuiet s
  load-IsQuiet s h session = weigh-zero session _ (omega (arith, h))
  load-IsQuiet s h chat = weigh-zero chat _ (omega (arith, h))
  load-IsQuiet s h message = weigh-zero message _ (omega (arith, h))
  load-IsQuiet s h storage = weigh-zero storage _ (omega (arith, h))

  IsQuiet-load : (s : ActorSystem p.queue) → IsQuiet s → load p s ≡ 0
  IsQuiet-load s h = rw (h message, h chat, h session, h storage) refl

  module _ (fifo : IsFifo p.queue) where
    -- A round in which every actor has its turn takes from the load, unless there is none.
    round-load :
        (s s' : ActorSystem p.queue) (order : List (ActorType × Stamp p)) (busy : Bool)
        → Covers p order
        → IsProgress p fifo (λ t. Visited p t order) s s' busy
        → load p s' ≤ load p s - 1
    round-load s s' order true covers progress = omega (arith, progress.spent)
    round-load s s' order false covers progress =
        let (waits, kept) = progress.idle refl in
        let none_left = IsQuiet-load s (λ t. waits t (covers t)) in
        omega (arith, progress.spent, none_left)

    worker_loop-load :
        (P : SendMessageEvent → Type 0) (rounds : List (List (ActorType × Stamp p))) (w : World p)
        → IsSound p P w.system
        → w.system.running ≡ true
        → All (Covers p) rounds
        → Ensures
            (λ w'. load p w'.system ≤ load p w.system - length rounds)
            (worker_loop p w rounds)
    unfolding worker_loop
    worker_loop-load P [] w v runs covers = omega arith
    worker_loop-load P (order ∷ rounds) w v runs (covers, later) =
        let Less = λ (w' : World p). load p w'.system ≤ load p w.system - suc (length rounds) in
        Ensures-if_true Less w.system.running _ _ runs (
          Ensures->>=_eq Less (round p w order) (λ result. worker_loop p result.0 rounds)
            (λ result done.
              let (sound, progress) = round-IsProgress p fifo P order w result.0 result.1 v done in
              let smaller = round-load w.system result.0.system order result.1 covers progress in
              Ensures-mono (λ w'. load p w'.system ≤ load p result.0.system - length rounds) Less
                (worker_loop p result.0 rounds) (λ w' small. omega (arith, small, smaller))
                (worker_loop-load P rounds result.0 sound (progress.running ∙ runs) later)))

    -- On a running server in which every mailbox holds only what its actor handles, with any
    -- messages waiting and mailboxes of any size: as many rounds as the load of the waiting
    -- envelopes, or more, each of which visits every actor, in any order and any number of times,
    -- leave no envelope in any mailbox, unless a handler throws. The load counts five for a message
    -- that waits for the message actor, four for one that waits for the chat actor, and one for
    -- every other envelope.
    pub worker_loop-IsQuiet :
        (P : SendMessageEvent → Type 0) (rounds : List (List (ActorType × Stamp p))) (w : World p)
        → IsSound p P w.system
        → w.system.running ≡ true
        → All (Covers p) rounds
        → load p w.system ≤ length rounds
        → Ensures (λ w'. IsQuiet w'.system) (worker_loop p w rounds)
    worker_loop-IsQuiet P rounds w v runs covers enough =
        Ensures-mono (λ w'. load p w'.system ≤ load p w.system - length rounds)
          (λ w'. IsQuiet w'.system) (worker_loop p w rounds)
          (λ w' small. load-IsQuiet w'.system (omega (arith, small, enough)))
          (worker_loop-load P rounds w v runs covers)
