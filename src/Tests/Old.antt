-- ===== src/Tests/Old.antt =====
-- The old sessions at concrete inputs.
use svitock.Base.{
  ◌≡◌, refl, inl, true, false, ◌&&◌, not, none, List, [], ◌∷◌, Bytes, codes, same, is_empty, ok,
  if◌then◌else◌,
}
use svitock.Legacy.{LegacyState, user_id_of, find_session}
use svitock.Legacy.Session.{
  LegacyEvent, writes, becomes, make_connection, legacy_steps, closed, on_read,
}
use svitock.Legacy.Session.Writes.{Agree, as_session, writes_in, legacy_steps-Agree}
use svitock.Legacy.Session.Closing.{on_read-IsEnd}
use svitock.Session.{sends, runs_task, completes, write_steps}
use svitock.Tests.Json.{small_json}
use svitock.Tests.Platform.{small_uuid, memory_repository}
use svitock.Tests.Services.{lobby}

abbrev talk : List LegacyEvent
talk =
    writes (sends (codes "a"))
    ∷ becomes (codes "ua")
    ∷ writes (sends (codes "b"))
    ∷ writes runs_task
    ∷ writes runs_task
    ∷ writes (completes false)
    ∷ writes (completes true)
    ∷ []

legacy_steps-Agree_example :
    Agree
      (codes "1")
      (legacy_steps ([], make_connection) talk)
      (write_steps ([], as_session (codes "1") make_connection) (writes_in talk))
legacy_steps-Agree_example = legacy_steps-Agree (codes "1") [] [] make_connection talk

on_read-IsEnd_example :
    (state' : LegacyState memory_repository) × (on_read small_json small_uuid memory_repository
        (codes "m1")
        7
        (lobby, 0)
        0
        closed
      ≡ ok (state', 0))
    × ((v : Bytes)
        → find_session state'.objects state'.manager v ≡ (
            if not (is_empty (user_id_of small_json small_uuid memory_repository lobby 0))
              && same (user_id_of small_json small_uuid memory_repository lobby 0) v
            then none
            else find_session lobby.objects lobby.manager v))
    × (state'.objects ≡ lobby.objects)
    × (state'.stored ≡ lobby.stored)
on_read-IsEnd_example =
    on_read-IsEnd small_json small_uuid memory_repository (codes "m1") 7 lobby 0 0 closed (inl refl)
