-- ===== src/Runtime/Letters/Taking.antt =====
-- The letters of a mailbox from which an envelope is taken.
use mathlib.Core.List.{Sublistᴰ}
use mathlib.Core.List.Sublistᴰ
use svitock.Base.{
  ◌≡◌, refl, sym, ap, inl, inr, none, some, List, [], ◌∷◌, ◌++◌, append-nil, append_assoc,
  Bool-cases, arith, subst,
}
use svitock.Extern.Queue.{QueueLib, IsFifo}
use svitock.Actor.Payload.{
  ActorType, ActorEnvelope, StoragePersistMessage, session, chat, message, storage, same_type,
  actor_type_hash_injective,
}
use svitock.Actor.Mailbox.{pop}
use svitock.Actor.Mailbox.Laws.{held, pop-Pops}
use svitock.Actor.System.{Actor, ActorSystem}
use svitock.Actor.System.Routing.{queued}
use svitock.Actor.System.Waiting.{take_one, queued-take_one}
use svitock.Runtime.Letters.{letters_in, letters, waiting_at}
use svitock.Runtime.Letters.Handlers.{at_type}

-- What is brought on stays in its place among the letters on their way.
pub carried_in_order :
    (t : ActorType) (x l a b c : List StoragePersistMessage)
    → Sublistᴰ x l
    → Sublistᴰ
        (at_type t storage x ++ ((a ++ at_type t chat x) ++ ((b ++ at_type t message x) ++ c)))
        ((at_type t storage l ++ a) ++ ((at_type t chat l ++ b) ++ (at_type t message l ++ c)))
carried_in_order session x l a b c part = simp (append-nil) (Sublistᴰ.refl (a ++ (b ++ c)))
carried_in_order storage x l a b c part =
    simp (append-nil, append_assoc) (Sublistᴰ.append part (Sublistᴰ.refl (a ++ (b ++ c))))
carried_in_order chat x l a b c part =
    simp (append-nil, append_assoc)
      (Sublistᴰ.append (Sublistᴰ.refl a) (Sublistᴰ.append part (Sublistᴰ.refl (b ++ c))))
carried_in_order message x l a b c part =
    simp (append-nil, append_assoc)
      (Sublistᴰ.append (Sublistᴰ.refl a)
        (Sublistᴰ.append (Sublistᴰ.refl b) (Sublistᴰ.append part (Sublistᴰ.refl c))))

module _ {Json : Type 0} (q : QueueLib (ActorEnvelope Json)) (fifo : IsFifo q) where
  -- The oldest letters of a mailbox are those of the envelope that is taken.
  pub waiting_at-take_one :
      (s : ActorSystem q) (t u : ActorType) (actor : Actor q) (e : ActorEnvelope Json)
      → s.actors t ≡ some actor
      → (pop q actor.mailbox).1 ≡ some e
      → waiting_at q s u
        ≡ at_type t u (letters_in e.payload) ++ waiting_at q (take_one q s t actor) u
  waiting_at-take_one s t u actor e found popped =
      let before : queued q s t ≡ e ∷ held q (pop q actor.mailbox).0 =
        rw found (rw popped at (pop-Pops q fifo actor.mailbox)) in
      elim (Bool-cases (same_type t u)) [
        | inl here ↦
            rw (queued-take_one q fifo s t u actor, here)
              (subst
                (λ u.
                  waiting_at q s u
                  ≡ letters_in e.payload ++ letters (held q (pop q actor.mailbox).0))
                (actor_type_hash_injective t u (ground arith)) (ap letters before))
        | inr there ↦ rw (queued-take_one q fifo s t u actor, there) refl
      ]

  -- A mailbox that had nothing to give keeps its letters.
  pub waiting_at-take_none :
      (s : ActorSystem q) (t u : ActorType) (actor : Actor q)
      → s.actors t ≡ some actor
      → (pop q actor.mailbox).1 ≡ none
      → waiting_at q (take_one q s t actor) u ≡ waiting_at q s u
  waiting_at-take_none s t u actor found empty =
      let (before, after) = rw empty at (pop-Pops q fifo actor.mailbox) in
      let nothing : queued q s t ≡ [] = rw found before in
      elim (Bool-cases (same_type t u)) [
        | inl here ↦
            rw (queued-take_one q fifo s t u actor, here, after)
              (subst (λ u. [] ≡ waiting_at q s u) (actor_type_hash_injective t u (ground arith))
                (sym (ap letters nothing)))
        | inr there ↦ rw (queued-take_one q fifo s t u actor, there) refl
      ]
