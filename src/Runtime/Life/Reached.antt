-- ===== src/Runtime/Life/Reached.antt =====
-- infrastructure/actors/session_actor, `handle`, in the states that a server reaches: which notices
-- get to a session.
use svitock.Base.{ℕ, ◌≡◌, refl, sym, ◌∙◌, ap, inl, inr, none, some, Option-cases, [], Bytes, ok}
use svitock.Base.Dict.{lookup}
use svitock.Actor.Payload.{SessionOutgoingEvent}
use svitock.Session.{WebSocketSession, send}
use svitock.Runtime.{Platform, World, deliver}
use svitock.Runtime.Life.{Life, with_session}
use svitock.Runtime.Life.Connected.{IsOpen, IsConnected}
use svitock.Runtime.Life.Notices.{send_to_lem}
use svitock.Runtime.Life.Agreement.{Life-Agree}

module _ (p : Platform) (w w' : World p) (unbound : w.transports ≡ [])
    (vacant : (a : ℕ) → w.objects a ≡ none) (life : Life p w w')
    (o : SessionOutgoingEvent p.json.Json) where
  connected : IsConnected w'.transports w'.objects
  connected = Life-Agree p w w' unbound vacant life

  -- In a state that a server reaches from one without sessions, by steps of its connections, of its
  -- sessions and of its workers: a notice whose payload can be written as text gets to the live
  -- session of its identifier that reads and has not failed to write, which is posted the text while
  -- nothing else changes; and a notice for which there is no such session is dropped.
  pub deliver-Life :
      ((address : ℕ) (s : WebSocketSession) (text : Bytes)
        → w'.objects address ≡ some s
        → IsOpen s
        → s.session_id ≡ o.session_id
        → p.json.dump o.payload ≡ ok text
        → deliver p w' o ≡ ok (with_session p w' address (w'.transports, send s text)))
      × (((address : ℕ) (s : WebSocketSession)
            → w'.objects address ≡ some s
            → s.session_id ≡ o.session_id
            → IsOpen s
            → ⊥)
          → deliver p w' o ≡ ok w')
  unfolding deliver with_session
  deliver-Life = (
    λ address s text live is_open id dumped.
        rw
          (
            deliver,
            sym (ap (λ k. lookup k w'.transports) id) ∙ connected.found address s live is_open,
            live,
            dumped,
          )
          (ap (λ objects. ok (record w' { objects = objects }))
            (send_to_lem p w'.objects address s text live)),
    λ missing. elim (Option-cases (lookup o.session_id w'.transports)) [
      | inl h ↦ rw (deliver, h) refl
      | inr (address, h) ↦
          let (s, live, id, is_open) = connected.alive o.session_id address h in
          absurd (missing address s live id is_open)
    ],
  )
