-- ===== src/Actor/Mailbox/Fifo.antt =====
-- A mailbox under any sequence of calls, against the plain queue that it stands for.
use svitock.Base.{
  ℕ, ◌≡◌, refl, true, Option, none, some, List, [], ◌∷◌, ◌++◌, arith, sym, inl, inr, Option-cases,
  if◌then◌else◌, append_assoc,
}
use svitock.Extern.Queue.{QueueLib, IsFifo}
use svitock.Actor.Mailbox.{Mailbox, make_mailbox, push, pop}
use svitock.Actor.Mailbox.Laws.{held, push-cases}

pub data Call (A : Type 0) : Type 0 where
  pushes : A → Call A
  pops : Call A

-- The mailbox with the envelopes that it took, gave out and refused so far, in this order.
pub record History {A : Type 0} (q : QueueLib A) : Type 0 where
  pub mailbox : Mailbox q
  pub accepted : List A
  pub popped : List A
  pub refused : List A

module _ {A : Type 0} (q : QueueLib A) where
  abbrev add : List A → Option A → List A
  add xs none = xs
  add xs (some a) = xs ++ a ∷ []

  unfoldable pub call : History q → Call A → History q
  call h (pushes e) =
      let (m, taken) = push q h.mailbox e in
      record h {
        mailbox = m;
        accepted = if taken then h.accepted ++ e ∷ [] else h.accepted;
        refused = if taken then h.refused else e ∷ h.refused;
      }
  call h pops = let (m, o) = pop q h.mailbox in record h { mailbox = m; popped = add h.popped o }

  unfoldable pub calls : History q → List (Call A) → History q
  calls h [] = h
  calls h (c ∷ cs) = calls (call h c) cs

  unfoldable pub start : ℕ → History q
  start capacity = record {
    mailbox = make_mailbox q capacity;
    accepted = [];
    popped = [];
    refused = [];
  }

  pub record IsQueue (h : History q) : Type 0 where
    pub in_order : h.accepted ≡ h.popped ++ held q h.mailbox
    pub leaked : h.mailbox.leaked ≡ h.refused
    pub active : h.mailbox.active ≡ true

module _ {A : Type 0} (q : QueueLib A) (fifo : IsFifo q) where
  push-IsQueue : (h : History q) (e : A) → IsQueue q h → IsQueue q (call q h (pushes e))
  unfolding call
  push-IsQueue h e v =
      ground
        (arith, push-cases q fifo h.mailbox e, append_assoc h.popped (held q h.mailbox) (e ∷ []))

  pop-IsQueue : (h : History q) → IsQueue q h → IsQueue q (call q h pops)
  unfolding call pop
  pop-IsQueue h v = elim (Option-cases (q.pop h.mailbox.queue).1) [
    | inl e ↦ ground (arith, e, rw e at (fifo.contents-pop h.mailbox.queue))
    | inr (a, e) ↦
        let after = q.contents (q.pop h.mailbox.queue).0 in
        let p : held q h.mailbox ≡ a ∷ after = rw e at (fifo.contents-pop h.mailbox.queue) in
        ground (arith, e, p, append_assoc h.popped (a ∷ []) after)
  ]

  calls-IsQueue : (h : History q) (cs : List (Call A)) → IsQueue q h → IsQueue q (calls q h cs)
  unfolding calls
  calls-IsQueue h [] v = v
  calls-IsQueue h (pushes e ∷ cs) v = calls-IsQueue (call q h (pushes e)) cs (push-IsQueue h e v)
  calls-IsQueue h (pops ∷ cs) v = calls-IsQueue (call q h pops) cs (pop-IsQueue h v)

  -- After any sequence of pushes and pops on a new mailbox, the envelopes that it accepted are those
  -- that it gave out followed by those that it holds, in the order of the pushes; and every envelope
  -- that it refused is leaked.
  pub calls-start-IsQueue :
      (capacity : ℕ) (cs : List (Call A)) → IsQueue q (calls q (start q capacity) cs)
  unfolding start make_mailbox
  calls-start-IsQueue capacity cs =
      calls-IsQueue (start q capacity) cs
        (record { in_order = sym (fifo.contents-make capacity); leaked = refl; active = refl })
