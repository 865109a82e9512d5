-- ===== src/Runtime/Letters.antt =====
-- The messages on their way: what each mailbox between a client and the repository still has to
-- bring there, the part that is nearest to the repository first.
pub mod Requests
pub mod Storing
pub mod Handlers
pub mod Taking
pub mod Order
use mathlib.Core.List.{Sublistᴰ}
use mathlib.Core.List.Sublistᴰ
use svitock.Base.{
  ◌≡◌, refl, sym, ap, subst, ◌∙◌, ◌⊎◌, inl, inr, Bool, true, false, ◌&&◌, List, [], ◌∷◌, ◌++◌,
  append-nil, append_assoc, Bool-cases, if◌then◌else◌, arith,
}
use svitock.Extern.Queue.{QueueLib, IsFifo}
use svitock.Actor.Payload.{
  ActorType, ActorPayload, ActorEnvelope, SendMessageEvent, StoragePersistMessage, session, chat,
  message, storage, auth, send_message, typing, read, persist, outgoing, same_type,
}
use svitock.Actor.System.{ActorSystem, send}
use svitock.Actor.System.Routing.{queued, queued-send}

-- What the repository is to get of a message.
abbrev pub letter_of : SendMessageEvent → StoragePersistMessage
letter_of e = record { chat_id = e.chat_id; sender_id = e.sender_id; content = e.text }

abbrev pub letters_in : {Json : Type 0} → ActorPayload Json → List StoragePersistMessage
letters_in (send_message e) = letter_of e ∷ []
letters_in (persist m) = m ∷ []
letters_in (auth e) = []
letters_in (typing e) = []
letters_in (read e) = []
letters_in (outgoing e) = []

abbrev pub letters : {Json : Type 0} → List (ActorEnvelope Json) → List StoragePersistMessage
letters [] = []
letters (e ∷ es) = letters_in e.payload ++ letters es

pub letters-append :
    {Json : Type 0} (es es' : List (ActorEnvelope Json))
    → letters (es ++ es') ≡ letters es ++ letters es'
letters-append [] es' = refl
letters-append (e ∷ es) es' =
    ap (◌++◌ (letters_in e.payload)) (letters-append es es')
    ∙ sym (append_assoc (letters_in e.payload) (letters es) (letters es'))

pub sublist-append_left : {A : Type 0} (xs ys : List A) → Sublistᴰ xs (xs ++ ys)
sublist-append_left [] ys = Sublistᴰ.nil-sublist ys
sublist-append_left (x ∷ xs) ys = Sublistᴰ.cons-cons refl (sublist-append_left xs ys)

pub sublist-append_right : {A : Type 0} (xs ys : List A) → Sublistᴰ ys (xs ++ ys)
sublist-append_right [] ys = Sublistᴰ.refl ys
sublist-append_right (x ∷ xs) ys = Sublistᴰ.cons (sublist-append_right xs ys)

pub if_nil : {A : Type 0} (b : Bool) → ◌≡◌ {A = List A} (if b then [] else []) []
if_nil true = refl
if_nil false = refl

module _ {Json : Type 0} (q : QueueLib (ActorEnvelope Json)) where
  abbrev pub waiting_at : ActorSystem q → ActorType → List StoragePersistMessage
  waiting_at s t = letters (queued q s t)

  abbrev pub in_flight : ActorSystem q → List StoragePersistMessage
  in_flight s = waiting_at s storage ++ (waiting_at s chat ++ waiting_at s message)

module _ {Json : Type 0} (q : QueueLib (ActorEnvelope Json)) (fifo : IsFifo q) where
  -- A send adds its letters at the end of its destination's mailbox, or nothing.
  pub waiting_at-send :
      (s : ActorSystem q) (e : ActorEnvelope Json)
      → (x : List StoragePersistMessage) × Sublistᴰ x (letters_in e.payload)
        × ((t : ActorType)
            → waiting_at q (send q s e).0 t
              ≡ waiting_at q s t ++ (if same_type e.destination t then x else []))
  waiting_at-send s e = elim (Bool-cases (send q s e).1) [
    | inl accepted ↦ (
      letters_in e.payload,
      Sublistᴰ.refl (letters_in e.payload),
      λ t. elim (Bool-cases (same_type e.destination t)) [
        | inl here ↦
            rw (queued-send q fifo s e t, here, accepted)
              (letters-append (queued q s t) (e ∷ [])
                ∙ ap (◌++◌ (letters (queued q s t))) (append-nil (letters_in e.payload)))
        | inr there ↦ rw (queued-send q fifo s e t, there) (sym (append-nil (waiting_at q s t)))
      ],
    )
    | inr refused ↦ (
      [],
      Sublistᴰ.nil-sublist (letters_in e.payload),
      λ t. elim (Bool-cases (same_type e.destination t)) [
        | inl here ↦
            rw (queued-send q fifo s e t, here, refused) (sym (append-nil (waiting_at q s t)))
        | inr there ↦ rw (queued-send q fifo s e t, there) (sym (append-nil (waiting_at q s t)))
      ],
    )
  ]

  -- A send of an envelope that brings no letter.
  pub waiting_at-send_silent :
      (s : ActorSystem q) (e : ActorEnvelope Json) (t : ActorType)
      → letters_in e.payload ≡ []
      → waiting_at q (send q s e).0 t ≡ waiting_at q s t
  waiting_at-send_silent s e t silent =
      let (x, part, added) = waiting_at-send s e in
      let nothing : x ≡ [] = Sublistᴰ.eq-nil (subst (Sublistᴰ x) silent part) in
      simp (added t, nothing, if_nil, append-nil)
