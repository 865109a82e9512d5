-- ===== src/Runtime/Settling.antt =====
-- The workers come to an end of the work: every envelope that is processed makes the load smaller.
pub mod Returning
pub mod Quiet
use svitock.Base.{
  ℕ, zero, suc, ◌+◌, ◌≤◌, ◌≡◌, refl, sym, ap, subst, ◌∙◌, ◌⊎◌, inl, inr, Bool, true, false, ◌||◌,
  none, some, List, [], ◌∷◌, All, length, Outcome, ok, >>=-eq-ok, ◌>>=◌, Option-cases, Bool-cases,
  arith, is_empty, if◌then◌else◌,
}
use svitock.Extern.Queue.{IsFifo, Pops}
use svitock.Actor.Payload.{
  ActorType, ActorPayload, ActorEnvelope, SendMessageEvent, session, chat, message, storage,
  same_type, actor_type_hash_injective, send_message, persist, outgoing,
}
use svitock.Actor.Mailbox.{pop}
use svitock.Actor.Mailbox.Laws.{held, pop-Pops}
use svitock.Actor.System.{Actor, ActorSystem}
use svitock.Actor.System.Routing.{queued, running-send}
use svitock.Actor.System.Waiting.{take_one, running-take_one, queued-take_one}
use svitock.Dispatcher.{post}
use svitock.Runtime.{
  Platform, Stamp, World, handle, handle_chat, handle_message, route_message, delivered_event,
  incoming_event,
}
use svitock.Runtime.Worker.{visit, visit-missing, visit-idle, visit-busy, round, worker_loop}
use svitock.Runtime.Provenance.{
  class_for, IsSound, handle_session-system, handle_storage-system, visit-IsSound, class_at_found,
  same_system,
}
use svitock.Runtime.Pipeline.{Visited, Covers}
use svitock.Runtime.Load.{
  cost, cost_positive, weigh, load, load-post, load-take_one, load-route_message,
}
use svitock.Runtime.Load.Spending.{Spends, handle-Spends}

module _ (p : Platform) where
  module _ (fifo : IsFifo p.queue) where
    -- What visits of some actors do: the load shrinks by those that were processed, and where none
    -- was, nothing waited for these actors, and nothing has moved.
    pub record IsProgress (Seen : ActorType → Type 0) (s s' : ActorSystem p.queue) (busy : Bool)
        : Type 0 where
      pub running : s'.running ≡ s.running
      pub spent : load p s' + (if busy then 1 else 0) ≤ load p s
      pub idle :
          busy ≡ false
          → ((t : ActorType) → Seen t → queued p.queue s t ≡ [])
            × ((u : ActorType) → queued p.queue s' u ≡ queued p.queue s u)

    take_none :
        (s : ActorSystem p.queue) (t u : ActorType) (actor : Actor p.queue)
        → s.actors t ≡ some actor
        → (pop p.queue actor.mailbox).1 ≡ none
        → (queued p.queue s t ≡ [])
          × (queued p.queue (take_one p.queue s t actor) u ≡ queued p.queue s u)
    take_none s t u actor found empty =
        let (before, after) = rw empty at (pop-Pops p.queue fifo actor.mailbox) in
        let waits : queued p.queue s t ≡ [] = rw found before in
        (
          waits,
          elim (Bool-cases (same_type t u)) [
            | inl here ↦
                rw (queued-take_one p.queue fifo s t u actor, here)
                  (after
                    ∙ subst (λ v. [] ≡ queued p.queue s v)
                        (actor_type_hash_injective t u (ground arith)) (sym waits))
            | inr there ↦ rw (queued-take_one p.queue fifo s t u actor, there) refl
          ],
        )

    pub same_load :
        (s s' : ActorSystem p.queue)
        → ((u : ActorType) → queued p.queue s' u ≡ queued p.queue s u)
        → load p s' ≡ load p s
    same_load s s' h = rw (h message, h chat, h session, h storage) refl

    idle_visit :
        (t : ActorType) (s s' : ActorSystem p.queue)
        → queued p.queue s t ≡ []
        → ((u : ActorType) → queued p.queue s' u ≡ queued p.queue s u)
        → s'.running ≡ s.running
        → IsProgress (λ u. t ≡ u) s s' false
    idle_visit t s s' waits kept runs = record {
      running = runs;
      spent = omega (arith, same_load s s' kept);
      idle = λ none_busy. (λ u same. subst (λ v. queued p.queue s v ≡ []) same waits, kept);
    }

    -- The progress of a call that has returned this.
    returned :
        (Seen : ActorType → Type 0) (s : ActorSystem p.queue) (w w' : World p) (b b' : Bool)
        → ◌≡◌ {A = Outcome (World p × Bool)} (ok (w, b)) (ok (w', b'))
        → IsProgress Seen s w.system b
        → IsProgress Seen s w'.system b'
    returned Seen s w w' b b' h progress =
        let same_busy : b ≡ b' = cc in
        subst (λ s'. IsProgress Seen s s' b') (same_system p w w' b b' h)
          (subst (IsProgress Seen s w.system) same_busy progress)

    busy_visit :
        (P : SendMessageEvent → Type 0) (stamp : Stamp p) (w w' : World p) (t : ActorType)
        (actor : Actor p.queue) (e : ActorEnvelope p.json.Json)
        → IsSound p P w.system
        → w.system.actors t ≡ some actor
        → (pop p.queue actor.mailbox).1 ≡ some e
        → handle p stamp
            (record w { system = take_one p.queue w.system t actor })
            actor.class
            e.payload
          ≡ ok w'
        → IsProgress (λ u. t ≡ u) w.system w'.system true
    busy_visit P stamp w w' t actor e v found popped handled =
        let class = class_at_found p fifo P w.system t actor found v in
        let taken = record w { system = take_one p.queue w.system t actor } in
        let (spent, runs) =
          handle-Spends p fifo stamp taken t e.payload w'
            (subst (λ c. handle p stamp taken c e.payload ≡ ok w') class handled) in
        let before : queued p.queue w.system t ≡ e ∷ held p.queue (pop p.queue actor.mailbox).0 =
          rw found (rw popped at (pop-Pops p.queue fifo actor.mailbox)) in
        record {
          running = runs ∙ running-take_one p.queue w.system t actor;
          spent = omega (arith, spent, load-take_one p fifo w.system t actor e before);
          idle = λ none_busy. cc;
        }

    -- A visit that returns.
    visit-IsProgress :
        (P : SendMessageEvent → Type 0) (stamp : Stamp p) (w : World p) (t : ActorType)
        (w' : World p) (busy : Bool)
        → IsSound p P w.system
        → visit p stamp w t ≡ ok (w', busy)
        → IsProgress (λ u. t ≡ u) w.system w'.system busy
    visit-IsProgress P stamp w t w' busy v h = elim (Option-cases (w.system.actors t)) [
      | inl missing ↦
          returned (λ u. t ≡ u) w.system w w' false busy
            (sym (visit-missing p stamp w t missing) ∙ h)
            (idle_visit t w.system w.system (rw missing refl) (λ u. refl) refl)
      | inr (actor, found) ↦ elim (Option-cases (pop p.queue actor.mailbox).1) [
        | inl empty ↦
            returned (λ u. t ≡ u) w.system _ w' false busy
              (sym (visit-idle p stamp w t actor found empty) ∙ h)
              (idle_visit t w.system (take_one p.queue w.system t actor)
                (take_none w.system t t actor found empty).0
                (λ u. (take_none w.system t u actor found empty).1)
                (running-take_one p.queue w.system t actor))
        | inr (e, popped) ↦
            let (w'', handled, last) =
              >>=-eq-ok _ _ (sym (visit-busy p stamp w t actor e found popped) ∙ h) in
            returned (λ u. t ≡ u) w.system w'' w' true busy last
              (busy_visit P stamp w w'' t actor e v found popped handled)
      ]
    ]

    -- Visits that follow one another.
    both :
        (Seen Seen' : ActorType → Type 0) (s s' s'' : ActorSystem p.queue) (b b' : Bool)
        → IsProgress Seen s s' b
        → IsProgress Seen' s' s'' b'
        → IsProgress (λ t. Seen t ⊎ Seen' t) s s'' (b || b')
    both Seen Seen' s s' s'' true b' first second = record {
      running = second.running ∙ first.running;
      spent = omega (arith, first.spent, second.spent);
      idle = λ none_busy. cc;
    }
    both Seen Seen' s s' s'' false true first second = record {
      running = second.running ∙ first.running;
      spent = omega (arith, first.spent, second.spent);
      idle = λ none_busy. cc;
    }
    both Seen Seen' s s' s'' false false first second =
        let (waits, kept) = first.idle refl in
        let (waits', kept') = second.idle refl in
        record {
          running = second.running ∙ first.running;
          spent = omega (arith, first.spent, second.spent);
          idle = λ none_busy. (
            λ t seen. elim seen [
              | inl here ↦ waits t here
              | inr there ↦ sym (kept t) ∙ waits' t there
            ],
            λ u. kept' u ∙ kept u,
          );
        }

    pub round-IsProgress :
        (P : SendMessageEvent → Type 0) (order : List (ActorType × Stamp p)) (w w' : World p)
        (busy : Bool)
        → IsSound p P w.system
        → round p w order ≡ ok (w', busy)
        → IsSound p P w'.system × IsProgress (λ t. Visited p t order) w.system w'.system busy
    unfolding round
    round-IsProgress P [] w w' busy v h =
        let same = same_system p w w' false busy h in
        let nothing : IsProgress (λ t. ⊥) w.system w.system false = record {
          running = refl;
          spent = omega arith;
          idle = λ none_busy. (λ t never. absurd never, λ u. refl);
        } in
        (subst (IsSound p P) same v, returned (λ t. ⊥) w.system w w' false busy h nothing)
    round-IsProgress P ((t, stamp) ∷ order) w w' busy v h =
        let ((w1, b1), visited, h1) = >>=-eq-ok (visit p stamp w t) _ h in
        let ((w2, b2), rest, h2) = >>=-eq-ok (round p w1 order) _ h1 in
        let sound = visit-IsSound p fifo P stamp w t w1 b1 v visited in
        let (sound', progress) = round-IsProgress P order w1 w2 b2 sound rest in
        (
          subst (IsSound p P) (same_system p w2 w' (b1 || b2) busy h2) sound',
          returned _ w.system w2 w' (b1 || b2) busy h2 (
              both (λ u. t ≡ u) (λ u. Visited p u order) w.system w1.system w2.system b1 b2
                (visit-IsProgress P stamp w t w1 b1 v visited) progress),
        )
