-- ===== src/Runtime/Letters/Order.antt =====
-- Messages reach the repository in the order in which the clients sent them, while the workers handle
-- one envelope at a time.
use mathlib.Core.List.{Sublistᴰ, map-append}
use mathlib.Core.List.Sublistᴰ
use svitock.Base.{
  ℕ, ◌≡◌, refl, sym, ◌∙◌, inl, inr, Bool, true, false, some, List, [], ◌++◌, map, append-nil,
  append_assoc, Bytes, Outcome, ok, >>=-eq-ok, Ensures-ok, Option-cases, subst,
}
use svitock.Extern.Queue.{IsFifo}
use svitock.Domain.{Message}
use svitock.Application.Ports.{KeepsMessages}
use svitock.Actor.Payload.{
  ActorType, ActorEnvelope, SendMessageEvent, StoragePersistMessage, chat, message, storage,
}
use svitock.Actor.Mailbox.{pop}
use svitock.Actor.System.{Actor}
use svitock.Actor.System.Waiting.{take_one}
use svitock.Dispatcher.{dispatch}
use svitock.Runtime.{Platform, Stamp, World, handle}
use svitock.Runtime.Worker.{visit, visit-missing, visit-idle, visit-busy, server_actors}
use svitock.Runtime.Start.{queued-server_actors}
use svitock.Runtime.Provenance.{IsSound, class_at_found}
use svitock.Runtime.Reachable.{
  Step, Reach, here, next, dispatches, connects, visits, FromClient, Reach-IsSound,
  server_actors-IsSound,
}
use svitock.Runtime.Letters.{letter_of, letters_in, waiting_at, in_flight, sublist-append_left}
use svitock.Runtime.Letters.Requests.{requested, Grows, dispatch-Grows}
use svitock.Runtime.Letters.Taking.{carried_in_order, waiting_at-take_one, waiting_at-take_none}
use svitock.Runtime.Letters.Storing.{AllWritten, AllWritten-append, Stores, nothing-Stores}
use svitock.Runtime.Letters.Handlers.{at_type, handle-Carries}

module _ (p : Platform) (Connected : Bytes → Type 0) where
  -- The messages that the texts of a run ask to send, in the order in which they were dispatched.
  abbrev said : {w w' : World p} → Step p Connected w w' → List SendMessageEvent
  said (dispatches session_id raw_message s c e) = requested p.json session_id raw_message
  said (connects transports objects) = []
  said (visits stamp t processed w' e) = []

  abbrev pub asked : {w w' : World p} → Reach p Connected w w' → List SendMessageEvent
  asked here = []
  asked (next r st) = asked r ++ said st

module _ (p : Platform) (keeps : KeepsMessages p.messages) where
  -- The repository holds `old` and new messages; the new ones hold what was asked, and they, and
  -- then what is on its way, are some of what was asked, in this order.
  pub record IsInOrder (old : List (Message p.uuid.Uuid)) (asked : List StoragePersistMessage)
      (w : World p) : Type 0 where
    pub done : List StoragePersistMessage
    pub new : List (Message p.uuid.Uuid)
    pub holds : keeps.Holds w.stored (old ++ new)
    pub written : AllWritten p.uuid done new
    pub in_order : Sublistᴰ (done ++ in_flight p.queue w.system) asked

  module _ (fifo : IsFifo p.queue) where
    -- What a step does to the letters.
    abbrev Advances : World p → World p → List StoragePersistMessage → Type 0
    Advances w w' more =
        (x : List StoragePersistMessage) × Stores p keeps w.stored x w'.stored
        × Sublistᴰ (x ++ in_flight p.queue w'.system) (in_flight p.queue w.system ++ more)

    Advances-IsInOrder :
        (old : List (Message p.uuid.Uuid)) (asked more : List StoragePersistMessage)
        (w w' : World p)
        → Advances w w' more
        → IsInOrder old asked w
        → IsInOrder old (asked ++ more) w'
    Advances-IsInOrder old asked more w w' (x, stores, part) v =
        let (added, written, holds) = stores (old ++ v.new) v.holds in
        record {
          done = v.done ++ x;
          new = v.new ++ added;
          holds = rw⁻¹ (append_assoc old v.new added) holds;
          written = AllWritten-append p.uuid v.done x v.new added v.written written;
          in_order = rw (append_assoc v.done x (in_flight p.queue w'.system)) (
              Sublistᴰ.trans (Sublistᴰ.append (Sublistᴰ.refl v.done) part) (
                rw⁻¹ (append_assoc v.done (in_flight p.queue w.system) more)
                  (Sublistᴰ.append v.in_order (Sublistᴰ.refl more))));
        }

    same_world :
        (w w' : World p) (b b' : Bool)
        → ◌≡◌ {A = Outcome (World p × Bool)} (ok (w, b)) (ok (w', b'))
        → w ≡ w'
    same_world w w' b b' h = cc

    nothing-Advances :
        (w w' : World p)
        → w.stored ≡ w'.stored
        → ((t : ActorType) → waiting_at p.queue w'.system t ≡ waiting_at p.queue w.system t)
        → Advances w w' []
    nothing-Advances w w' same kept = (
      [],
      nothing-Stores p keeps w.stored w'.stored same,
      rw (kept storage, kept chat, kept message)
          (sublist-append_left (in_flight p.queue w.system) []),
    )

    busy-Advances :
        (P : SendMessageEvent → Type 0) (stamp : Stamp p) (w w' : World p) (t : ActorType)
        (actor : Actor p.queue) (e : ActorEnvelope p.json.Json)
        → IsSound p P w.system
        → w.system.actors t ≡ some actor
        → (pop p.queue actor.mailbox).1 ≡ some e
        → handle p stamp
            (record w { system = take_one p.queue w.system t actor })
            actor.class
            e.payload
          ≡ ok w'
        → Advances w w' []
    busy-Advances P stamp w w' t actor e v found popped handled =
        let s = take_one p.queue w.system t actor in
        let taken : World p = record w { system = s } in
        let (x, part, c) = handle-Carries p keeps fifo stamp taken w' t e.payload (
          subst (λ class. handle p stamp taken class e.payload ≡ ok w')
            (class_at_found p fifo P w.system t actor found v) handled) in
        let before =
          λ (u : ActorType). waiting_at-take_one p.queue fifo w.system t u actor e found popped in
        (
          at_type t storage x,
          c.stores,
          rw
              (
                c.to_storage,
                c.to_chat,
                c.to_message,
                before storage,
                before chat,
                before message,
                append-nil,
              )
              (carried_in_order t x (letters_in e.payload) (waiting_at p.queue s storage)
                (waiting_at p.queue s chat) (waiting_at p.queue s message) part),
        )

    visit-Advances :
        (P : SendMessageEvent → Type 0) (stamp : Stamp p) (w w' : World p) (t : ActorType)
        (processed : Bool)
        → IsSound p P w.system
        → visit p stamp w t ≡ ok (w', processed)
        → Advances w w' []
    visit-Advances P stamp w w' t processed v h = elim (Option-cases (w.system.actors t)) [
      | inl missing ↦
          subst (λ w'. Advances w w' [])
            (same_world w w' false processed (sym (visit-missing p stamp w t missing) ∙ h))
            (nothing-Advances w w refl (λ t. refl))
      | inr (actor, found) ↦ elim (Option-cases (pop p.queue actor.mailbox).1) [
        | inl empty ↦
            subst (λ w'. Advances w w' [])
              (same_world _ w' false processed (sym (visit-idle p stamp w t actor found empty) ∙ h))
              (nothing-Advances w (record w { system = take_one p.queue w.system t actor }) refl
                (λ u. waiting_at-take_none p.queue fifo w.system t u actor found empty))
        | inr (e, popped) ↦
            let (w1, handled, last) =
              >>=-eq-ok _ _ (sym (visit-busy p stamp w t actor e found popped) ∙ h) in
            subst (λ w'. Advances w w' []) (same_world w1 w' true processed last)
              (busy-Advances P stamp w w1 t actor e v found popped handled)
      ]
    ]

    module _ (Connected : Bytes → Type 0) where
      Step-Advances :
          {w w' : World p} (st : Step p Connected w w')
          → IsSound p (FromClient p fifo Connected) w.system
          → Advances w w' (map letter_of (said p Connected st))
      Step-Advances {w} (dispatches session_id raw s c e) v =
          let (x, part, grown) =
            Ensures-ok (Grows p.json p.queue fifo w.system (requested p.json session_id raw))
              (dispatch p.json p.queue w.system session_id raw) s
              (dispatch-Grows p.json p.queue fifo w.system session_id raw) e in
          (
            [],
            nothing-Stores p keeps w.stored w.stored refl,
            rw grown (Sublistᴰ.append (Sublistᴰ.refl (in_flight p.queue w.system)) part),
          )
      Step-Advances {w} (connects transports objects) v =
          nothing-Advances w (record w { transports = transports; objects = objects }) refl
            (λ t. refl)
      Step-Advances {w} {w'} (visits stamp t processed w'' e) v =
          visit-Advances (FromClient p fifo Connected) stamp w w' t processed v e

      Reach-IsInOrder :
          {w w' : World p} (old : List (Message p.uuid.Uuid)) (r : Reach p Connected w w')
          → IsSound p (FromClient p fifo Connected) w.system
          → IsInOrder old [] w
          → IsInOrder old (map letter_of (asked p Connected r)) w'
      Reach-IsInOrder old here v k = k
      Reach-IsInOrder {w} {w'} old (next {v = u} r st) v k =
          rw (map-append letter_of (asked p Connected r) (said p Connected st)) (
            Advances-IsInOrder old _ _ u w' (Step-Advances st (Reach-IsSound p fifo Connected r v))
              (Reach-IsInOrder old r v k))

      -- In every state that a new server reaches by dispatched texts of connected sessions and visits
      -- of workers, one handler at a time, with mailboxes of any size, over a repository that keeps
      -- what it creates: it holds what it held and new messages behind it. The new messages have the
      -- texts and the parsed identifiers of letters such that these letters, then those that wait for
      -- the storage, for the chat and for the message actor, are in this order a part of what the
      -- dispatched texts asked to send.
      pub server_actors-IsInOrder :
          (capacity : ℕ) (w w' : World p) (old : List (Message p.uuid.Uuid))
          → w.system ≡ server_actors p capacity
          → keeps.Holds w.stored old
          → (r : Reach p Connected w w') → IsInOrder old (map letter_of (asked p Connected r)) w'
      server_actors-IsInOrder capacity w w' old new_server holds r =
          Reach-IsInOrder old r
            (subst (IsSound p (FromClient p fifo Connected)) (sym new_server)
              (server_actors-IsSound p fifo Connected capacity))
            (record {
              done = [];
              new = [];
              holds = rw (append-nil old) holds;
              written = tt;
              in_order =
                  rw
                    (
                      new_server,
                      queued-server_actors p fifo capacity storage,
                      queued-server_actors p fifo capacity chat,
                      queued-server_actors p fifo capacity message,
                    )
                    Sublistᴰ.slnil;
            })
