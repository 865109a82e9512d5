-- ===== src/Runtime/Load.antt =====
-- How much work the waiting envelopes are: an envelope that makes others is worth more than they.
pub mod Spending
use svitock.Base.{
  ℕ, ◌+◌, ◌≤◌, ◌≡◌, refl, sym, ap, ◌∙◌, inl, inr, Bool, true, false, ◌&&◌, some, none, List, [],
  ◌∷◌, ◌++◌, Bool-cases, subst, arith, if◌then◌else◌, is_empty,
}
use svitock.Extern.Queue.{IsFifo}
use svitock.Actor.Payload.{
  ActorType, ActorPayload, ActorEnvelope, SendMessageEvent, session, chat, message, storage,
  same_type, actor_type_hash_injective, send_message, persist, outgoing,
}
use svitock.Actor.Mailbox.{pop}
use svitock.Actor.Mailbox.Laws.{held}
use svitock.Actor.System.{Actor, ActorSystem, send}
use svitock.Actor.System.Routing.{queued, queued-send}
use svitock.Actor.System.Waiting.{take_one, queued-take_one}
use svitock.Dispatcher.{post}
use svitock.Runtime.{Platform, route_message, delivered_event, incoming_event}

abbrev pub cost : {Json : Type 0} → ActorType → ActorPayload Json → ℕ
cost message (send_message e) = 5
cost chat (send_message e) = 4
cost t payload = 1

pub cost_positive :
    {Json : Type 0} (t : ActorType) (payload : ActorPayload Json) → 1 ≤ cost t payload
cost_positive t payload = ground arith

abbrev pub weigh : {Json : Type 0} → ActorType → List (ActorEnvelope Json) → ℕ
weigh t [] = 0
weigh t (e ∷ es) = cost t e.payload + weigh t es

weigh-append :
    {Json : Type 0} (t : ActorType) (es es' : List (ActorEnvelope Json))
    → weigh t (es ++ es') ≡ weigh t es + weigh t es'
weigh-append t [] es' = omega arith
weigh-append t (e ∷ es) es' = omega (arith, weigh-append t es es')

module _ (p : Platform) where
  abbrev pub load : ActorSystem p.queue → ℕ
  load s =
      weigh message (queued p.queue s message)
      + weigh chat (queued p.queue s chat)
      + weigh session (queued p.queue s session)
      + weigh storage (queued p.queue s storage)

  -- What a sent envelope adds to a mailbox at most.
  abbrev added : ActorType → ActorType → ActorPayload p.json.Json → ℕ
  added t u payload = if same_type t u then cost u payload else 0

  module _ (fifo : IsFifo p.queue) where
    weigh-post :
        (s : ActorSystem p.queue) (t u : ActorType) (payload : ActorPayload p.json.Json)
        → weigh u (queued p.queue (post p.json p.queue s t payload) u)
          ≤ weigh u (queued p.queue s u) + added t u payload
    weigh-post s t u payload =
        let e : ActorEnvelope p.json.Json = record { destination = t; payload = payload } in
        elim (Bool-cases (same_type t u)) [
          | inl here ↦ elim (Bool-cases (send p.queue s e).1) [
            | inl accepted ↦
                rw (queued-send p.queue fifo s e u, here, accepted)
                  (omega (arith, weigh-append u (queued p.queue s u) (e ∷ [])))
            | inr refused ↦ rw (queued-send p.queue fifo s e u, here, refused) (omega arith)
          ]
          | inr there ↦ rw (queued-send p.queue fifo s e u, there) (omega arith)
        ]

    pub load-post :
        (s : ActorSystem p.queue) (t : ActorType) (payload : ActorPayload p.json.Json)
        → load (post p.json p.queue s t payload) ≤ load s + cost t payload
    load-post s session payload = omega (
      arith,
      weigh-post s session session payload,
      weigh-post s session chat payload,
      weigh-post s session message payload,
      weigh-post s session storage payload,
    )
    load-post s chat payload = omega (
      arith,
      weigh-post s chat session payload,
      weigh-post s chat chat payload,
      weigh-post s chat message payload,
      weigh-post s chat storage payload,
    )
    load-post s message payload = omega (
      arith,
      weigh-post s message session payload,
      weigh-post s message chat payload,
      weigh-post s message message payload,
      weigh-post s message storage payload,
    )
    load-post s storage payload = omega (
      arith,
      weigh-post s storage session payload,
      weigh-post s storage chat payload,
      weigh-post s storage message payload,
      weigh-post s storage storage payload,
    )

    weigh-take_one :
        (s : ActorSystem p.queue) (t u : ActorType) (actor : Actor p.queue)
        (e : ActorEnvelope p.json.Json)
        → queued p.queue s t ≡ e ∷ held p.queue (pop p.queue actor.mailbox).0
        → weigh u (queued p.queue (take_one p.queue s t actor) u) + added t u e.payload
          ≡ weigh u (queued p.queue s u)
    weigh-take_one s t u actor e popped = elim (Bool-cases (same_type t u)) [
      | inl here ↦
          rw (queued-take_one p.queue fifo s t u actor, here)
            (subst
              (λ v.
                weigh v (held p.queue (pop p.queue actor.mailbox).0) + cost v e.payload
                ≡ weigh v (queued p.queue s v))
              (actor_type_hash_injective t u (ground arith)) own)
      | inr there ↦ rw (queued-take_one p.queue fifo s t u actor, there) (omega arith)
    ]
      where
        own :
            weigh t (held p.queue (pop p.queue actor.mailbox).0) + cost t e.payload
            ≡ weigh t (queued p.queue s t)
        own = rw popped (omega arith)

    -- An envelope that is taken out takes its cost with it.
    pub load-take_one :
        (s : ActorSystem p.queue) (t : ActorType) (actor : Actor p.queue)
        (e : ActorEnvelope p.json.Json)
        → queued p.queue s t ≡ e ∷ held p.queue (pop p.queue actor.mailbox).0
        → load (take_one p.queue s t actor) + cost t e.payload ≡ load s
    load-take_one s session actor e popped = omega (
      arith,
      weigh-take_one s session session actor e popped,
      weigh-take_one s session chat actor e popped,
      weigh-take_one s session message actor e popped,
      weigh-take_one s session storage actor e popped,
    )
    load-take_one s chat actor e popped = omega (
      arith,
      weigh-take_one s chat session actor e popped,
      weigh-take_one s chat chat actor e popped,
      weigh-take_one s chat message actor e popped,
      weigh-take_one s chat storage actor e popped,
    )
    load-take_one s message actor e popped = omega (
      arith,
      weigh-take_one s message session actor e popped,
      weigh-take_one s message chat actor e popped,
      weigh-take_one s message message actor e popped,
      weigh-take_one s message storage actor e popped,
    )
    load-take_one s storage actor e popped = omega (
      arith,
      weigh-take_one s storage session actor e popped,
      weigh-take_one s storage chat actor e popped,
      weigh-take_one s storage message actor e popped,
      weigh-take_one s storage storage actor e popped,
    )

    -- A message on its way makes a record and at most two notices.
    pub load-route_message :
        (s : ActorSystem p.queue) (e : SendMessageEvent) → load (route_message p s e) ≤ load s + 3
    unfolding route_message
    load-route_message s e =
        let record' =
          persist (record { chat_id = e.chat_id; sender_id = e.sender_id; content = e.text }) in
        let s' = post p.json p.queue s storage record' in
        let echo = outgoing (record { session_id = e.session_id; payload = delivered_event p e }) in
        let s'' = post p.json p.queue s' session echo in
        let notice =
          outgoing (record { session_id = e.recipient_id; payload = incoming_event p e }) in
        let echoed : load s'' ≤ load s + 2 =
          omega (arith, load-post s storage record', load-post s' session echo) in
        elim (Bool-cases (is_empty e.recipient_id)) [
          | inl alone ↦ rw (route_message, alone) (omega (arith, echoed))
          | inr named ↦
              rw (route_message, named) (omega (arith, echoed, load-post s'' session notice))
        ]
