-- ===== src/Actor/Mailbox/Laws.antt =====
-- What a mailbox does with the envelopes that it is given.
use svitock.Base.{
  ℕ, zero, suc, ◌<◌, ◌≡◌, refl, inl, inr, true, false, not, ◌&&◌, List, [], ◌∷◌, ◌++◌, length,
  arith, ap, Option-cases, if◌then◌else◌,
}
use svitock.Extern.Queue.{QueueLib, IsFifo, Pops}
use svitock.Actor.Mailbox.{Mailbox, push, pop, drain, destroy}

module _ {A : Type 0} (q : QueueLib A) where
  -- What a mailbox holds, oldest first.
  abbrev pub held : Mailbox q → List A
  held m = q.contents m.queue

module _ {A : Type 0} (q : QueueLib A) (fifo : IsFifo q) where
  pub push-cases :
      (m : Mailbox q) (e : A)
      → let (m', accepted) = push q m e in
        (held q m' ≡ (if accepted then held q m ++ e ∷ [] else held q m))
        × (m'.leaked ≡ (if m.active && not accepted then e ∷ m.leaked else m.leaked))
        × (m'.active ≡ m.active)
        × (q.capacity m'.queue ≡ q.capacity m.queue)
  unfolding push
  push-cases m e = ground (arith, fifo.contents-push m.queue e, fifo.capacity-push m.queue e)

  pub push-accepted :
      (m : Mailbox q) (e : A)
      → m.active ≡ true
      → length (held q m) < q.capacity m.queue
      → (push q m e).1 ≡ true
  unfolding push
  push-accepted m e h k = ground (arith, fifo.push_accepted m.queue e)

  pub pop-Pops : (m : Mailbox q) → Pops (held q m) (pop q m).1 (held q (pop q m).0)
  unfolding pop
  pop-Pops m = fifo.contents-pop m.queue

  drain-empty :
      (fuel : ℕ) (s : q.Queue) → length (q.contents s) < fuel → q.contents (drain q fuel s) ≡ []
  unfolding drain
  drain-empty zero s h = absurd (omega arith)
  drain-empty (suc fuel) s h = elim (Option-cases (q.pop s).1) [
    | inl e ↦ rw (e, drain) ((rw e at (fifo.contents-pop s)).1)
    | inr (a, e) ↦
        let p : q.contents s ≡ a ∷ q.contents (q.pop s).0 = rw e at (fifo.contents-pop s) in
        rw (e, drain) (drain-empty fuel (q.pop s).0 (omega (arith, ap length p)))
  ]

  -- With more rounds than entries the destructor frees every envelope that the mailbox holds, and
  -- the mailbox takes no other one.
  pub destroy-empty :
      (fuel : ℕ) (m : Mailbox q) (e : A)
      → length (held q m) < fuel
      → (held q (destroy q fuel m) ≡ []) × (push q (destroy q fuel m) e ≡ (destroy q fuel m, false))
  unfolding destroy push
  destroy-empty fuel m e h = (drain-empty fuel m.queue h, refl)
