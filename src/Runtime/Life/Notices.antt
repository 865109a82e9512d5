-- ===== src/Runtime/Life/Notices.antt =====
-- What a visit of a worker makes of the sessions: at most one is posted a payload, one that the
-- registry leads to.
use mathlib.Core.Path.{fun_ext}
use svitock.Base.{
  ℕ, ◌==◌, ==_iff, ◌≡◌, refl, ap, inl, inr, Bool-cases, Option, some, Option-cases, Bytes, ok,
  Ensures, Ensures->>=, Ensures-chain, sym, ◌∙◌, true,
}
use svitock.Base.Dict.{lookup}
use svitock.Actor.Payload.{
  ActorType, ActorPayload, SessionOutgoingEvent, auth, send_message, typing, read, persist,
  outgoing,
}
use svitock.Actor.Mailbox.{pop}
use svitock.Actor.System.{ActorClass, session_actor, chat_actor, message_actor, storage_actor}
use svitock.Actor.System.Waiting.{take_one}
use svitock.Session.{WebSocketSession}
use svitock.Session
use svitock.Runtime.{
  Platform, Stamp, World, send_to, deliver, handle, handle_session, handle_storage, store_message,
}
use svitock.Runtime.Worker.{visit, visit-missing, visit-idle, visit-busy}
use svitock.Runtime.Life.{put}

module _ (p : Platform) where
  -- Nothing is posted, or a payload is posted to the session that the registry has for `k`.
  pub data Notice (w w' : World p) : Type 0 where
    nothing : w'.transports ≡ w.transports → w'.objects ≡ w.objects → Notice w w'
    notice :
        (k : Bytes) (address : ℕ) (s : WebSocketSession) (payload : Bytes)
        → w'.transports ≡ w.transports
        → lookup k w.transports ≡ some address
        → w.objects address ≡ some s
        → w'.objects ≡ put w.objects address (some (Session.send s payload))
        → Notice w w'

  send_to-put :
      (objects : ℕ → Option WebSocketSession) (address : ℕ) (s : WebSocketSession) (payload : Bytes)
      → objects address ≡ some s
      → (a : ℕ)
      → send_to p objects address payload a ≡ put objects address (some (Session.send s payload)) a
  unfolding send_to put
  send_to-put objects address s payload h a = elim (Bool-cases (a == address)) [
    | inl here ↦ rw (send_to, put, here, (==_iff a address).0 here, h) refl
    | inr there ↦ rw (send_to, put, there) refl
  ]

  pub send_to_lem :
      (objects : ℕ → Option WebSocketSession) (address : ℕ) (s : WebSocketSession) (payload : Bytes)
      → objects address ≡ some s
      → send_to p objects address payload ≡ put objects address (some (Session.send s payload))
  send_to_lem objects address s payload h = fun_ext (send_to-put objects address s payload h)

  deliver-Notice :
      (w : World p) (o : SessionOutgoingEvent p.json.Json) → Ensures (Notice w) (deliver p w o)
  unfolding deliver
  deliver-Notice w o = elim (Option-cases (lookup o.session_id w.transports)) [
    | inl h ↦ rw (deliver, h) (nothing refl refl)
    | inr (address, h) ↦ elim (Option-cases (w.objects address)) [
      | inl k ↦ rw (deliver, h, k) (nothing refl refl)
      | inr (s, k) ↦
          rw (deliver, h, k)
            (Ensures->>= (Notice w) (p.json.dump o.payload) _ λ payload.
              notice o.session_id address s payload refl h k
                (send_to_lem w.objects address s payload k))
    ]
  ]

  store_message-Notice :
      (stamp : Stamp p) (w : World p) (payload : ActorPayload p.json.Json)
      → Ensures (Notice w) (handle_storage p stamp w payload)
  unfolding handle_storage store_message
  store_message-Notice stamp w (persist e) =
      Ensures->>= (Notice w) (p.uuid.string_generator e.chat_id) _ λ chat_id.
        Ensures->>= (Notice w) (p.uuid.string_generator e.sender_id) _ λ sender_id.
          Ensures->>= (Notice w) (p.messages.create w.stored _) _ λ result. nothing refl refl
  store_message-Notice stamp w (auth e) = nothing refl refl
  store_message-Notice stamp w (send_message e) = nothing refl refl
  store_message-Notice stamp w (typing e) = nothing refl refl
  store_message-Notice stamp w (read e) = nothing refl refl
  store_message-Notice stamp w (outgoing e) = nothing refl refl

  handle_session-Notice :
      (w : World p) (payload : ActorPayload p.json.Json)
      → Ensures (Notice w) (handle_session p w payload)
  unfolding handle_session
  handle_session-Notice w (outgoing e) = deliver-Notice w e
  handle_session-Notice w (auth e) = nothing refl refl
  handle_session-Notice w (send_message e) = nothing refl refl
  handle_session-Notice w (typing e) = nothing refl refl
  handle_session-Notice w (read e) = nothing refl refl
  handle_session-Notice w (persist e) = nothing refl refl

  handle-Notice :
      (stamp : Stamp p) (w : World p) (class : ActorClass) (payload : ActorPayload p.json.Json)
      → Ensures (Notice w) (handle p stamp w class payload)
  unfolding handle
  handle-Notice stamp w session_actor payload = handle_session-Notice w payload
  handle-Notice stamp w chat_actor payload = nothing refl refl
  handle-Notice stamp w message_actor payload = nothing refl refl
  handle-Notice stamp w storage_actor payload = store_message-Notice stamp w payload

  relocate :
      (w v w' : World p)
      → v.transports ≡ w.transports
      → v.objects ≡ w.objects
      → Notice v w'
      → Notice w w'
  relocate w v w' t o (nothing t' o') = nothing (t' ∙ t) (o' ∙ o)
  relocate w v w' t o (notice k address s payload t' h live o') =
      notice k address s payload (t' ∙ t) (ap (lookup k) (sym t) ∙ h)
        (ap (λ f. f address) (sym o) ∙ live)
        (o' ∙ ap (λ f. put f address (some (Session.send s payload))) o)

  pub visit-Notice :
      (stamp : Stamp p) (w : World p) (t : ActorType)
      → Ensures (λ r. Notice w r.0) (visit p stamp w t)
  visit-Notice stamp w t = elim (Option-cases (w.system.actors t)) [
    | inl missing ↦ rw (visit-missing p stamp w t missing) (nothing refl refl)
    | inr (actor, here) ↦ elim (Option-cases (pop p.queue actor.mailbox).1) [
      | inl idle ↦ rw (visit-idle p stamp w t actor here idle) (nothing refl refl)
      | inr (e, busy) ↦
          let v : World p = record w { system = take_one p.queue w.system t actor } in
          rw (visit-busy p stamp w t actor e here busy) (
            Ensures-chain (Notice v) (λ r. Notice w r.0) (handle p stamp v actor.class e.payload)
              (λ w'. ok (w', true)) (handle-Notice stamp v actor.class e.payload)
              (λ w' n. relocate w v w' refl refl n))
    ]
  ]
