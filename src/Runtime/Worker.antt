-- ===== src/Runtime/Worker.antt =====
-- core/actor/actor_system.cpp, `workerLoop`, and infrastructure/network/server.cpp, the actors that
-- the constructor registers. A worker takes one envelope and handles it in one step; several workers
-- are an interleaving of such steps.
use svitock.Base.{
  ℕ, ◌≡◌, Bool, true, false, ◌||◌, none, some, List, [], ◌∷◌, Outcome, ok, ◌>>=◌, if◌then◌else◌,
}
use svitock.Actor.Payload.{ActorType, ActorEnvelope, session, chat, message, storage}
use svitock.Actor.Mailbox.{make_mailbox, pop}
use svitock.Actor.System.{
  Actor, ActorClass, ActorSystem, session_actor, chat_actor, message_actor, storage_actor,
  make_actor_system, register_actor,
}
use svitock.Actor.System.Waiting.{take_one}
use svitock.Runtime.{Platform, Stamp, World, handle}

module _ (p : Platform) where
  abbrev new_actor : ActorClass → ℕ → Actor p.queue
  new_actor class capacity = record { class = class; mailbox = make_mailbox p.queue capacity }

  -- The actors of a new server, with mailboxes of the configured capacity.
  unfoldable pub server_actors : ℕ → ActorSystem p.queue
  unfolding register_actor make_actor_system
  server_actors capacity =
      let s = make_actor_system p.queue in
      let s' = register_actor p.queue s session (new_actor session_actor capacity) in
      let s'' = register_actor p.queue s' chat (new_actor chat_actor capacity) in
      let s''' = register_actor p.queue s'' message (new_actor message_actor capacity) in
      register_actor p.queue s''' storage (new_actor storage_actor capacity)

  -- The body of the loop over `actors_`, for one entry: the world after it, and whether an envelope
  -- was processed.
  unfoldable pub visit : Stamp p → World p → ActorType → Outcome (World p × Bool)
  visit stamp w t = elim (w.system.actors t) [
    | none ↦ ok (w, false)
    | some actor ↦
        let (mailbox', raw) = pop p.queue actor.mailbox in
        let s = register_actor p.queue w.system t (record actor { mailbox = mailbox' }) in
        elim raw [
          | none ↦ ok (record w { system = s }, false)
          | some envelope ↦ do
            w' ← handle p stamp (record w { system = s }) actor.class envelope.payload
            ok (w', true)
        ]
  ]

  -- One round over the entries in the map's order, each with what a handler would draw.
  unfoldable pub round : World p → List (ActorType × Stamp p) → Outcome (World p × Bool)
  round w [] = ok (w, false)
  round w ((t, stamp) ∷ order) = do
    visited ← visit stamp w t
    rest ← round visited.0 order
    ok (rest.0, visited.1 || rest.1)

  -- `workerLoop`, for as many rounds as the schedule has; it ends once `running_` is false.
  unfoldable pub worker_loop : World p → List (List (ActorType × Stamp p)) → Outcome (World p)
  worker_loop w [] = ok w
  worker_loop w (order ∷ rounds) =
      let next = round w order >>= λ result. worker_loop result.0 rounds in
      if w.system.running then next else ok w

  -- The three cases of a visit.
  pub visit-missing :
      (stamp : Stamp p) (w : World p) (t : ActorType)
      → w.system.actors t ≡ none
      → visit stamp w t ≡ ok (w, false)
  unfolding visit
  visit-missing stamp w t h = rw (h, visit)

  pub visit-idle :
      (stamp : Stamp p) (w : World p) (t : ActorType) (actor : Actor p.queue)
      → w.system.actors t ≡ some actor
      → (pop p.queue actor.mailbox).1 ≡ none
      → visit stamp w t ≡ ok (record w { system = take_one p.queue w.system t actor }, false)
  unfolding visit take_one
  visit-idle stamp w t actor h k = rw (h, visit, k)

  pub visit-busy :
      (stamp : Stamp p) (w : World p) (t : ActorType) (actor : Actor p.queue)
      (e : ActorEnvelope p.json.Json)
      → w.system.actors t ≡ some actor
      → (pop p.queue actor.mailbox).1 ≡ some e
      → visit stamp w t ≡ (
          handle p stamp
            (record w { system = take_one p.queue w.system t actor })
            actor.class
            e.payload
          >>= λ w'. ok (w', true))
  unfolding visit take_one
  visit-busy stamp w t actor e h k = rw (h, visit, k)
