-- ===== src/Runtime/Pipeline.antt =====
-- The way of one chat message through the actors, as an abstract machine: which envelopes wait at
-- which stage, and what a visit of an actor does to the stage.
pub mod Progress
use svitock.Base.{
  ℕ, zero, suc, ◌+◌, ◌≤◌, ◌<◌, ◌≡◌, refl, inl, inr, ◌⊎◌, Bool, true, false, not, Option, none, some,
  List, [], ◌∷◌, Bytes, Outcome, ok, is_empty, All, arith,
}
use svitock.Base.Dict.{lookup}
use svitock.Actor.Payload.{
  ActorType, ActorPayload, ActorEnvelope, SendMessageEvent, session, chat, message, storage,
  send_message, persist, outgoing,
}
use svitock.Domain.{Message}
use svitock.Session.{WebSocketSession}
use svitock.Runtime.{Platform, Stamp, World, delivered_event, incoming_event, send_to}

pub data Notices : Type 0 where
  none_sent echo_sent both_sent : Notices

-- The message waits for the message actor, then for the chat actor; then it is fanned out, to the
-- storage, which draws a stamp, and to two sessions.
pub data Stage (p : Platform) : Type 0 where
  at_message at_chat : Stage p
  fanned : Option (Stamp p) → Notices → Stage p

abbrev pub by_type {ℓ} : {A : Type ℓ} → A → A → A → A → ActorType → A
by_type a b c d session = a
by_type a b c d chat = b
by_type a b c d message = c
by_type a b c d storage = d

module _ (p : Platform) where
  abbrev pub next_notice : Notices → Notices
  next_notice none_sent = echo_sent
  next_notice _ = both_sent

  abbrev pub advance : Stage p → ActorType → Stamp p → Stage p
  advance at_message message stamp = at_chat
  advance at_chat chat stamp = fanned none none_sent
  advance (fanned none k) storage stamp = fanned (some stamp) k
  advance (fanned o k) session stamp = fanned o (next_notice k)
  advance st _ stamp = st

  abbrev pub advances : Stage p → List (ActorType × Stamp p) → Stage p
  advances st [] = st
  advances st ((t, stamp) ∷ order) = advances (advance st t stamp) order

  abbrev pub unsent : Notices → ℕ
  unsent none_sent = 2
  unsent echo_sent = 1
  unsent both_sent = 0

  -- The visits that a message still needs.
  abbrev pub remaining : Stage p → ℕ
  remaining at_message = 5
  remaining at_chat = 4
  remaining (fanned none k) = suc (unsent k)
  remaining (fanned (some stamp) k) = unsent k

  abbrev pub Visited : ActorType → List (ActorType × Stamp p) → Type 0
  Visited t [] = ⊥
  Visited t ((u, stamp) ∷ order) = (u ≡ t) ⊎ Visited t order

  -- The order of a round, in which each actor has its turn.
  abbrev pub Covers : List (ActorType × Stamp p) → Type 0
  Covers order = (t : ActorType) → Visited t order
