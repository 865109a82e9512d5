-- ===== src/Runtime/Threads/Copies.antt =====
-- How often a letter is stored, held by a worker and on its way.
use mathlib.Core.List.{Sublistᴰ}
use svitock.Base.{
  ℕ, ◌+◌, ◌≤◌, ◌≡◌, refl, sym, ap, ◌∙◌, inl, inr, Bool, ◌&&◌, List, [], ◌∷◌, ◌++◌, append_assoc,
  same, Bool-cases, if◌then◌else◌, arith,
}
use svitock.Actor.Payload.{
  ActorType, ActorPayload, StoragePersistMessage, session, chat, message, storage, same_type,
}
use svitock.Actor.System.{ActorSystem, session_actor, chat_actor, message_actor, storage_actor}
use svitock.Runtime.{Platform}
use svitock.Runtime.Provenance.{class_for}
use svitock.Runtime.Letters.{letters_in, waiting_at, in_flight}
use svitock.Runtime.Letters.Handlers.{at_type}
use svitock.Runtime.Threads.{Hand, Crew}

-- How often a letter stands in a list.
abbrev same_letter : StoragePersistMessage → StoragePersistMessage → Bool
same_letter a b =
    same a.chat_id b.chat_id && (same a.sender_id b.sender_id && same a.content b.content)

abbrev pub copies : StoragePersistMessage → List StoragePersistMessage → ℕ
copies l [] = 0
copies l (a ∷ as') = (if same_letter l a then 1 else 0) + copies l as'

pub copies-append :
    (l : StoragePersistMessage) (xs ys : List StoragePersistMessage)
    → copies l (xs ++ ys) ≡ copies l xs + copies l ys
copies-append l [] ys = omega arith
copies-append l (x ∷ xs) ys = omega (arith, copies-append l xs ys)

pub copies-sublist :
    (l : StoragePersistMessage) {xs ys : List StoragePersistMessage}
    → Sublistᴰ xs ys
    → copies l xs ≤ copies l ys
copies-sublist l Sublistᴰ.slnil = omega arith
copies-sublist l (Sublistᴰ.cons h) = omega (arith, copies-sublist l h)
copies-sublist l (Sublistᴰ.cons-cons e h) = rw e (omega (arith, copies-sublist l h))

-- A letter that is given or brought on at a place.
pub copies-added :
    (l : StoragePersistMessage) (xs ys zs : List StoragePersistMessage)
    → xs ≡ ys ++ zs
    → copies l xs ≡ copies l ys + copies l zs
copies-added l xs ys zs h = ap (copies l) h ∙ copies-append l ys zs

pub copies-at_type :
    (l : StoragePersistMessage) (t u : ActorType) (x xs : List StoragePersistMessage)
    → Sublistᴰ x xs
    → copies l (at_type t u x) ≤ copies l (at_type t u xs)
copies-at_type l t u x xs part = elim (Bool-cases (same_type t u)) [
  | inl here ↦ rw here (copies-sublist l part)
  | inr there ↦ rw there (omega arith)
]

module _ (p : Platform) where
  -- The session actor brings no letter on.
  abbrev pub brings : Hand p → List StoragePersistMessage
  brings (session_actor, payload) = []
  brings (chat_actor, payload) = letters_in payload
  brings (message_actor, payload) = letters_in payload
  brings (storage_actor, payload) = letters_in payload

  abbrev pub held_letters : List (Hand p) → List StoragePersistMessage
  held_letters [] = []
  held_letters (hand ∷ hands) = brings hand ++ held_letters hands

  pub held_letters-append :
      (hands hands' : List (Hand p))
      → held_letters (hands ++ hands') ≡ held_letters hands ++ held_letters hands'
  held_letters-append [] hands' = refl
  held_letters-append (hand ∷ hands) hands' =
      ap (◌++◌ (brings hand)) (held_letters-append hands hands')
      ∙ sym (append_assoc (brings hand) (held_letters hands) (held_letters hands'))

  pub copies-brings :
      (l : StoragePersistMessage) (t : ActorType) (payload : ActorPayload p.json.Json)
      → copies l (brings (class_for t, payload))
        ≡ copies l (at_type t storage (letters_in payload))
          + (copies l (at_type t chat (letters_in payload))
              + copies l (at_type t message (letters_in payload)))
  copies-brings l session payload = omega arith
  copies-brings l chat payload = omega arith
  copies-brings l message payload = omega arith
  copies-brings l storage payload = omega arith

  pub copies-in_flight :
      (l : StoragePersistMessage) (s : ActorSystem p.queue)
      → copies l (in_flight p.queue s)
        ≡ copies l (waiting_at p.queue s storage)
          + (copies l (waiting_at p.queue s chat) + copies l (waiting_at p.queue s message))
  copies-in_flight l s = omega (
    arith,
    copies-append l (waiting_at p.queue s storage)
        (waiting_at p.queue s chat ++ waiting_at p.queue s message),
    copies-append l (waiting_at p.queue s chat) (waiting_at p.queue s message),
  )

  -- How often a letter is in the hands of a worker or waits in a mailbox.
  abbrev pub on_their_way : StoragePersistMessage → Crew p → ℕ
  on_their_way l c = copies l (held_letters c.hands) + copies l (in_flight p.queue c.world.system)
