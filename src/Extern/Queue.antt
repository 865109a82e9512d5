-- ===== src/Extern/Queue.antt =====
-- boost::lockfree::queue<ActorEnvelope*>: `queue_(capacity)`, `bounded_push` and `pop`.
use svitock.Base.{
  ℕ, ◌<◌, ◌≡◌, Bool, true, Option, none, some, List, [], ◌∷◌, ◌++◌, length, if◌then◌else◌,
}

pub record QueueLib (A : Type 0) : Type 1 where
  pub Queue : Type 0
  pub make : ℕ → Queue
  -- The queue after the call, and the call's result.
  pub bounded_push : Queue → A → Queue × Bool
  pub pop : Queue → Queue × Option A
  -- What the laws speak of: the entries, oldest first, and the number of preallocated nodes.
  pub contents : Queue → List A
  pub capacity : Queue → ℕ

-- What a result of `pop` leaves.
abbrev pub Pops : {A : Type 0} → List A → Option A → List A → Type 0
Pops before none after = (before ≡ []) × (after ≡ [])
Pops before (some a) after = before ≡ a ∷ after

-- First in, first out; a push is refused only when all nodes are taken, and then changes nothing.
pub record IsFifo {A : Type 0} (q : QueueLib A) : Type 0 where
  pub contents-make : (n : ℕ) → q.contents (q.make n) ≡ []
  pub capacity-make : (n : ℕ) → q.capacity (q.make n) ≡ n
  pub push_accepted :
      (s : q.Queue) (a : A) → length (q.contents s) < q.capacity s → (q.bounded_push s a).1 ≡ true
  pub contents-push :
      (s : q.Queue) (a : A)
      → q.contents (q.bounded_push s a).0
        ≡ (if (q.bounded_push s a).1 then q.contents s ++ a ∷ [] else q.contents s)
  pub capacity-push : (s : q.Queue) (a : A) → q.capacity (q.bounded_push s a).0 ≡ q.capacity s
  pub contents-pop : (s : q.Queue) → Pops (q.contents s) (q.pop s).1 (q.contents (q.pop s).0)
  pub capacity-pop : (s : q.Queue) → q.capacity (q.pop s).0 ≡ q.capacity s
