-- ===== src/Runtime/Reading.antt =====
-- infrastructure/network/websocket/websocket_session, `onRead`: what a session reads is dispatched,
-- and a session that reads no more is forgotten.
use svitock.Base.{
  ℕ, ◌==◌, ◌≡◌, refl, Bool, true, false, none, some, Bytes, same, same_refl, Outcome, ok, ◌>>=◌,
  >>=-eq-ok, if◌then◌else◌, arith, subst,
}
use svitock.Base.Dict.{lookup, lookup-erase}
use svitock.Actor.Payload.{SessionOutgoingEvent}
use svitock.Dispatcher.{dispatch}
use svitock.Session.{WebSocketSession, do_read, unbind_transport}
use svitock.Runtime.{Platform, World, deliver}
use svitock.Runtime.Reachable.{Reach, here, next, dispatches, connects}

module _ (p : Platform) where
  -- `onRead` of the session `s` at an address, with what was read; the read is no longer outstanding.
  unfoldable pub on_read : World p → ℕ → WebSocketSession → Bool → Bytes → Outcome (World p)
  unfolding unbind_transport do_read
  on_read w address s true raw =
      ok (record w { transports = unbind_transport s.session_id w.transports })
  on_read w address s false raw = do
    system' ← dispatch p.json p.queue w.system s.session_id raw
    ok (record w {
      system = system';
      objects = λ a. if a == address then some (do_read s) else w.objects a;
    })

  -- Where a session of a connected client has read a text, or has failed to, and its handler returns,
  -- the state after it is one that the server's steps reach.
  pub on_read-Reach :
      (Connected : Bytes → Type 0) (w : World p) (address : ℕ) (s : WebSocketSession)
      (failed : Bool) (raw : Bytes) (w' : World p)
      → Connected s.session_id
      → on_read w address s failed raw ≡ ok w'
      → Reach p Connected w w'
  unfolding on_read
  on_read-Reach Connected w address s true raw w' c e =
      subst (Reach p Connected w) (ground arith)
        (next here (connects (unbind_transport s.session_id w.transports) w.objects))
  on_read-Reach Connected w address s false raw w' c e =
      let (system', dispatched, same_world) =
        >>=-eq-ok (dispatch p.json p.queue w.system s.session_id raw) _ e in
      subst (Reach p Connected w) (ground (arith, same_world)) (
        next (next here (dispatches s.session_id raw system' c dispatched))
          (connects w.transports (λ a. if a == address then some (do_read s) else w.objects a)))

  dropped :
      (w : World p) (o : SessionOutgoingEvent p.json.Json)
      → lookup o.session_id w.transports ≡ none
      → deliver p w o ≡ ok w
  unfolding deliver
  dropped w o h = rw (deliver, h) refl

  -- After a read of a session that failed, every notice for this session is dropped: its delivery
  -- returns and changes nothing; and the session that any other notice finds is the one that it
  -- found before.
  pub deliver-on_read :
      (w : World p) (address : ℕ) (s : WebSocketSession) (raw : Bytes)
      → (w' : World p) × (on_read w address s true raw ≡ ok w')
        × ((o : SessionOutgoingEvent p.json.Json)
            → o.session_id ≡ s.session_id
            → deliver p w' o ≡ ok w')
        × ((o : SessionOutgoingEvent p.json.Json)
            → same s.session_id o.session_id ≡ false
            → lookup o.session_id w'.transports ≡ lookup o.session_id w.transports)
  unfolding on_read unbind_transport
  deliver-on_read w address s raw =
      let w' : World p = record w { transports = unbind_transport s.session_id w.transports } in
      (
        w',
        refl,
        λ o h. dropped w' o (
            rw (h, lookup-erase s.session_id s.session_id w.transports, same_refl s.session_id)
              refl),
        λ o h. rw (lookup-erase s.session_id o.session_id w.transports, h) refl,
      )
