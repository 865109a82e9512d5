-- ===== src/Runtime/Threads/Overtaking.antt =====
-- Two workers may handle two messages of the storage actor in the other order.
use svitock.Base.{
  ◌≤◌, ◌<◌, length, ◌≡◌, refl, sym, ap, ◌∙◌, inl, inr, Bool, true, some, List, [], ◌∷◌, ◌++◌, Bytes,
  ok, Option-cases, arith, subst,
}
use svitock.Extern.Queue.{QueueLib, IsFifo}
use svitock.Domain.{Message}
use svitock.Actor.Payload.{
  ActorType, ActorEnvelope, StoragePersistMessage, storage, persist, same_type,
}
use svitock.Actor.Mailbox.{pop}
use svitock.Actor.Mailbox.Laws.{held, pop-Pops}
use svitock.Actor.System.{Actor, ActorSystem, register_actor, storage_actor}
use svitock.Actor.System.Routing.{queued, class_at}
use svitock.Actor.System.Waiting.{take_one, queued-take_one, class_at-take_one}
use svitock.Runtime.{Platform, Stamp, World, handle, handle_storage, store_message}
use svitock.Runtime.Threads.{Crew, Turn, Turns, takes, finishes, first, then_turn, idle, taken}

module _ {Json : Type 0} (q : QueueLib (ActorEnvelope Json)) (fifo : IsFifo q) where
  -- The actor whose mailbox gives out its oldest envelope.
  pub next_envelope :
      (s : ActorSystem q) (t : ActorType) (e : ActorEnvelope Json)
      (rest : List (ActorEnvelope Json))
      → queued q s t ≡ e ∷ rest
      → (actor : Actor q) × (s.actors t ≡ some actor)
        × ((pop q actor.mailbox).1 ≡ some e)
        × (queued q (take_one q s t actor) t ≡ rest)
  next_envelope s t e rest waits = elim (Option-cases (s.actors t)) [
    | inl missing ↦ let never : [] ≡ e ∷ rest = rw missing at waits in cc
    | inr (actor, found) ↦
        let full : held q actor.mailbox ≡ e ∷ rest = rw found at waits in
        elim (Option-cases (pop q actor.mailbox).1) [
          | inl empty ↦
              let (before, after) = rw empty at (pop-Pops q fifo actor.mailbox) in
              let never : [] ≡ e ∷ rest = sym before ∙ full in cc
          | inr (e', popped) ↦
              let before : held q actor.mailbox ≡ e' ∷ held q (pop q actor.mailbox).0 =
                rw popped at (pop-Pops q fifo actor.mailbox) in
              let same : e' ∷ held q (pop q actor.mailbox).0 ≡ e ∷ rest = sym before ∙ full in
              let same_head : e' ≡ e = cc in
              let same_tail : held q (pop q actor.mailbox).0 ≡ rest = cc in
              let here : same_type t t ≡ true = ground arith in
              (
                actor,
                found,
                popped ∙ ap some same_head,
                rw (queued-take_one q fifo s t t actor, here) same_tail,
              )
        ]
  ]

module _ (p : Platform) where
  -- A message as the storage actor creates it.
  abbrev pub created_from :
      StoragePersistMessage → p.uuid.Uuid → p.uuid.Uuid → Stamp p → Message p.uuid.Uuid
  created_from l chat_id sender_id stamp = record {
    id = stamp.id;
    chat_id = chat_id;
    sender_id = sender_id;
    content = l.content;
    created_at = stamp.now;
  }

  -- The storage actor can store this letter: it parses, and the creation returns.
  pub record IsStored (stamp : Stamp p) (l : StoragePersistMessage) (s s' : p.messages.State)
      : Type 0 where
    pub chat_id : p.uuid.Uuid
    pub sender_id : p.uuid.Uuid
    pub success : Bool
    pub chat_id_parsed : p.uuid.string_generator l.chat_id ≡ ok chat_id
    pub sender_id_parsed : p.uuid.string_generator l.sender_id ≡ ok sender_id
    pub created : p.messages.create s (created_from l chat_id sender_id stamp) ≡ ok (s', success)

  handle-IsStored :
      (stamp : Stamp p) (w : World p) (l : StoragePersistMessage) (s' : p.messages.State)
      → IsStored stamp l w.stored s'
      → handle p stamp w storage_actor (persist l) ≡ ok (record w { stored = s' })
  unfolding handle handle_storage store_message
  handle-IsStored stamp w l s' h = rw (h.chat_id_parsed, h.sender_id_parsed, h.created) refl

  abbrev letter_envelope : StoragePersistMessage → ActorEnvelope p.json.Json
  letter_envelope l = record { destination = storage; payload = persist l }

  module _ (fifo : IsFifo p.queue) (Connected : Bytes → Type 0) where
    storage_actor_at :
        (s : ActorSystem p.queue) (actor : Actor p.queue)
        → class_at p.queue s storage ≡ some storage_actor
        → s.actors storage ≡ some actor
        → actor.class ≡ storage_actor
    storage_actor_at s actor h found = ground (arith, h, found)

    takes_letter :
        (c : Crew p) (l : StoragePersistMessage) (rest : List (ActorEnvelope p.json.Json))
        → length c.hands < c.world.system.workers
        → class_at p.queue c.world.system storage ≡ some storage_actor
        → queued p.queue c.world.system storage ≡ letter_envelope l ∷ rest
        → (s : ActorSystem p.queue) × Turn p Connected c (record {
          world = record c.world { system = s };
          hands = c.hands ++ (storage_actor, persist l) ∷ [];
        })
          × (queued p.queue s storage ≡ rest)
          × (class_at p.queue s storage ≡ some storage_actor)
          × (s.workers ≡ c.world.system.workers)
    unfolding take_one register_actor
    takes_letter c l rest free class waits =
        let (actor, found, popped, left) =
          next_envelope p.queue fifo c.world.system storage (letter_envelope l) rest waits in
        let own = storage_actor_at c.world.system actor class found in
        (
          take_one p.queue c.world.system storage actor,
          subst
              (λ class. Turn p Connected c (record {
                world = taken p c.world storage actor;
                hands = c.hands ++ (class, persist l) ∷ [];
              }))
              own (takes storage actor (letter_envelope l) free found popped),
          left,
          class_at-take_one p.queue fifo c.world.system storage storage actor found ∙ class,
          refl,
        )

    -- Where two letters are the next for the storage actor of a server with two workers or more, none
    -- of which holds an envelope, and both can be stored, the later one first: there is a run of the
    -- threads after which the later one was stored, then the earlier one, no worker holds an
    -- envelope, and the rest waits.
    pub overtakes :
        (w : World p) (earlier later : StoragePersistMessage)
        (rest : List (ActorEnvelope p.json.Json)) (stamp stamp' : Stamp p) (s s' : p.messages.State)
        → 2 ≤ w.system.workers
        → class_at p.queue w.system storage ≡ some storage_actor
        → queued p.queue w.system storage ≡ letter_envelope earlier ∷ letter_envelope later ∷ rest
        → IsStored stamp later w.stored s
        → IsStored stamp' earlier s s'
        → (c : Crew p) × Turns p Connected (idle p w) c
          × (c.world.stored ≡ s')
          × (c.hands ≡ [])
          × (queued p.queue c.world.system storage ≡ rest)
    overtakes w earlier later rest stamp stamp' s s' two class waits stores stores' =
        let c = idle p w in
        let (s1, turn1, waits1, class1, workers1) =
          takes_letter c earlier (letter_envelope later ∷ rest) (omega (arith, two)) class waits in
        let w1 : World p = record w { system = s1 } in
        let c1 : Crew p = record { world = w1; hands = (storage_actor, persist earlier) ∷ [] } in
        let (s2, turn2, waits2, class2, workers2) =
          takes_letter c1 later rest (omega (arith, two, workers1)) class1 waits1 in
        let w2 : World p = record w { system = s2 } in
        let turn3 =
          finishes stamp ((storage_actor, persist earlier) ∷ []) [] storage_actor (persist later)
            (record w2 { stored = s }) refl (handle-IsStored stamp w2 later s stores) in
        let w3 : World p = record w2 { stored = s } in
        let turn4 =
          finishes stamp' [] [] storage_actor (persist earlier) (record w3 { stored = s' }) refl
            (handle-IsStored stamp' w3 earlier s' stores') in
        (
          record { world = record w3 { stored = s' }; hands = [] },
          then_turn (then_turn (then_turn (then_turn first turn1) turn2) turn3) turn4,
          refl,
          refl,
          waits2,
        )
