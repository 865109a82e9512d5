-- ===== src/Legacy/Session/Closing.antt =====
-- What the end of a connection does to the registered sessions.
use svitock.Base.{
  ℕ, ◌≡◌, refl, ◌⊎◌, inl, inr, ◌∷◌, [], ◌&&◌, not, Option, none, Bytes, same, is_empty, ok,
  Bool-cases, if◌then◌else◌,
}
use svitock.Base.Dict.{lookup-erase}
use svitock.Extern.Json.{JsonLib}
use svitock.Extern.Uuid.{UuidLib}
use svitock.Application.Ports.{MessageRepository}
use svitock.Legacy.{
  SessionManager, LegacySession, LegacyState, user_id_of, find_session, remove_session,
}
use svitock.Legacy.Session.{LegacyRead, closed, failed, close, on_read}

-- The sessions that are found after the close, in terms of those before.
find_session-close :
    (objects : ℕ → Option LegacySession) (manager : SessionManager) (user_id v : Bytes)
    → find_session objects (close manager user_id) v
      ≡ (if not (is_empty user_id) && same user_id v then none else find_session objects manager v)
unfolding find_session close remove_session
find_session-close objects manager [] v = refl
find_session-close objects manager (c ∷ cs) v = elim (Bool-cases (same (c ∷ cs) v)) [
  | inl own ↦ rw (find_session, lookup-erase (c ∷ cs) v manager, own) refl
  | inr other ↦ rw (find_session, lookup-erase (c ∷ cs) v manager, other) refl
]

-- The result says that the connection has ended.
abbrev pub IsEnd : LegacyRead → Type 0
IsEnd result = (result ≡ closed) ⊎ (result ≡ failed)

module _ (json : JsonLib) (uuid : UuidLib) (messages : MessageRepository uuid.Uuid) where
  abbrev closed_state : LegacyState messages → Bytes → LegacyState messages
  closed_state state user_id = record state { manager = close state.manager user_id }

  ended :
      (id : uuid.Uuid) (now : ℕ) (state : LegacyState messages) (reads self : ℕ)
      (result : LegacyRead)
      → IsEnd result
      → on_read json uuid messages id now (state, reads) self result
        ≡ ok (closed_state state (user_id_of json uuid messages state self), reads)
  unfolding on_read
  ended id now state reads self result (inl h) = rw h refl
  ended id now state reads self result (inr h) = rw h refl

  -- When a connection ends, no session is found for its user any more, not even another one that
  -- has authenticated as this user since; the sessions of the other users are found as before, all
  -- sessions stay alive, nothing is stored, and no read follows.
  pub on_read-IsEnd :
      (id : uuid.Uuid) (now : ℕ) (state : LegacyState messages) (reads self : ℕ)
      (result : LegacyRead)
      → IsEnd result
      → (state' : LegacyState messages) × (on_read json uuid messages id now
            (state, reads)
            self
            result
          ≡ ok (state', reads))
        × ((v : Bytes)
            → find_session state'.objects state'.manager v ≡ (
                if not (is_empty (user_id_of json uuid messages state self))
                  && same (user_id_of json uuid messages state self) v
                then none
                else find_session state.objects state.manager v))
        × (state'.objects ≡ state.objects)
        × (state'.stored ≡ state.stored)
  on_read-IsEnd id now state reads self result ends =
      let user_id = user_id_of json uuid messages state self in
      (
        closed_state state user_id,
        ended id now state reads self result ends,
        find_session-close state.objects state.manager user_id,
        refl,
        refl,
      )
