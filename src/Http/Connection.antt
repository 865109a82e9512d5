-- ===== src/Http/Connection.antt =====
-- infrastructure/network/http/http_session: one connection reads a request, routes it and writes the
-- response, and then reads again. The socket is an environment: it completes the operation that is
-- outstanding.
pub mod Order
use svitock.Base.{
  ℕ, zero, suc, ◌+◌, Bool, true, false, List, [], ◌∷◌, ◌++◌, Outcome, ok, throws, ◌>>=◌,
  if◌then◌else◌,
}
use svitock.Extern.Json.{JsonLib}
use svitock.Extern.Uuid.{UuidLib}
use svitock.Application.Ports.{MessageRepository}
use svitock.Http.{Request, Response, TokenService, route}

-- `reads` and `writing` are the outstanding operations, the latter with the flag that `onWrite`
-- gets; `shut` says that the sending side is shut down. `received` are the requests that were
-- routed, `responses` what was given to the socket, and `answered` what it wrote without an error.
pub record HttpSession : Type 0 where
  pub reads : ℕ
  pub writing : List (Response × Bool)
  pub shut : Bool
  pub received : List (TokenService × Request)
  pub responses : List Response
  pub answered : List Response

unfoldable pub make_http_session : HttpSession
make_http_session = record {
  reads = 0;
  writing = [];
  shut = false;
  received = [];
  responses = [];
  answered = [];
}

unfoldable pub do_read : HttpSession → HttpSession
do_read s = record s { reads = s.reads + 1 }

-- With what a read completes.
pub data ReadResult : Type 0 where
  request : Request → ReadResult
  end_of_stream failure : ReadResult

-- `onWrite`, with an error code or without one.
unfoldable pub on_write : HttpSession → Bool → Bool → HttpSession
unfolding do_read
on_write s failed close =
    if failed then s else (if close then record s { shut = true } else do_read s)

-- What may happen to a connection; a request comes with the time at which it is routed.
pub data HttpEvent : Type 0 where
  read_completes : TokenService → ReadResult → HttpEvent
  write_completes : Bool → HttpEvent

module _ (json : JsonLib) (uuid : UuidLib) (messages : MessageRepository uuid.Uuid)
    (need_eof : Response → Bool) where
  -- `onRead`.
  unfoldable pub on_read :
      TokenService
      → messages.State × HttpSession
      → ReadResult
      → Outcome (messages.State × HttpSession)
  on_read service (state, s) end_of_stream = ok (state, record s { shut = true })
  on_read service (state, s) failure = ok (state, s)
  on_read service (state, s) (request r) = do
    routed ← route json uuid messages service state r
    ok (
      routed.0,
      record s {
        writing = s.writing ++ (routed.1, need_eof routed.1) ∷ [];
        received = s.received ++ (service, r) ∷ [];
        responses = s.responses ++ routed.1 ∷ [];
      },
    )

  -- Where no such operation is outstanding, nothing happens.
  unfoldable pub http_step :
      messages.State × HttpSession → HttpEvent → Outcome (messages.State × HttpSession)
  unfolding on_read on_write
  http_step (state, s) (read_completes service result) = elim s.reads [
    | zero ↦ ok (state, s)
    | suc n ↦ on_read service (state, record s { reads = n }) result
  ]
  http_step (state, s) (write_completes failed) = elim s.writing [
    | [] ↦ ok (state, s)
    | (response, close) ∷ rest ↦ ok (
      state,
      on_write
          (record s {
            writing = rest;
            answered = if failed then s.answered else s.answered ++ response ∷ [];
          })
          failed close,
    )
  ]

  unfoldable pub http_steps :
      messages.State × HttpSession → List HttpEvent → Outcome (messages.State × HttpSession)
  http_steps c [] = ok c
  http_steps c (e ∷ es) = do c' ← http_step c e; http_steps c' es
