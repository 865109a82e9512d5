-- ===== src/Tests/Http.antt =====
-- HTTP connections at concrete inputs.
use svitock.Base.{true, false, List, [], ◌∷◌, codes}
use svitock.Http.{Request, TokenService, get, post}
use svitock.Http.Accepting.{
  make_http_listener, do_accept, completions, IsAccepting, completions-do_accept,
}
use svitock.Http.Connection.{
  HttpEvent, read_completes, write_completes, request, end_of_stream, make_http_session, http_steps,
}
use svitock.Http.Connection
use svitock.Http.Connection.Order.{Results, http_steps_lem}
use svitock.Tests.Json.{small_json}
use svitock.Tests.Platform.{small_sha1, small_uuid, memory_repository}

abbrev service : TokenService
service = record { sha1 = small_sha1; secret = codes "s"; now = 9 }

abbrev asks_user : Request
asks_user = record { method = get; target = codes "/user/ann"; body = []; authorization = [] }

abbrev registers : Request
registers = record { method = post; target = codes "/register"; body = []; authorization = [] }

-- Two requests, one after the other, and the end of the stream.
abbrev exchange : List HttpEvent
exchange =
    read_completes service (request asks_user)
    ∷ write_completes false
    ∷ read_completes service (request registers)
    ∷ write_completes false
    ∷ read_completes service end_of_stream
    ∷ []

http_steps_lem_example : Results small_json small_uuid memory_repository [] (
    http_steps small_json small_uuid memory_repository
      (λ r. false)
      ([], Connection.do_read make_http_session)
      exchange)
http_steps_lem_example =
    http_steps_lem small_json small_uuid memory_repository (λ r. false) [] exchange

-- The second of three accepts fails.
completions-do_accept_example :
    IsAccepting 2 (completions (do_accept make_http_listener) (false ∷ true ∷ false ∷ []))
completions-do_accept_example = completions-do_accept (false ∷ true ∷ false ∷ [])
