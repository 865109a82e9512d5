-- ===== src/Tests/Startup.antt =====
-- The constructors of the listeners, and the process, at concrete inputs.
use svitock.Base.{
  ℕ, ◌≡◌, ◌==◌, false, Bool, ◌||◌, Option, refl, List, [], ◌∷◌, throws, runtime_error, none, some,
  Bytes, codes, Outcome, ok, if◌then◌else◌,
}
use svitock.Extern.Acceptor.{AcceptorLib}
use svitock.Listener.Opening.{open_websocket, open_http, open_legacy}
use svitock.Listener.Opening.Errors.{first_error, calls, plain, placed, open-first_error}
use svitock.Server.{Server}
use svitock.Server.Startup.{Wait, signalled}
use svitock.Tests.Platform.{small_platform}

-- The system has the ports that are bound; an acceptor holds it. A port that is bound is taken.
abbrev is_among : ℕ → List ℕ → Bool
is_among n [] = false
is_among n (m ∷ ms) = let rest = is_among n ms in m == n || rest

abbrev bind_port : List ℕ → ℕ → List ℕ × Option Bytes
bind_port ports port =
    if is_among port ports then (ports, some (codes "in use")) else (port ∷ ports, none)

abbrev small_acceptor : AcceptorLib
small_acceptor = record {
  System = List ℕ;
  Acceptor = List ℕ;
  Address = Bytes;
  Endpoint = Bytes × ℕ;
  make_address = λ host. ok host;
  endpoint = λ address port. (address, port);
  fresh = λ system. system;
  system = λ a. a;
  open_for = λ a e. (a, none);
  reuse_address = λ a. (a, none);
  bind = λ a e. bind_port a e.1;
  listen = λ a. (a, none);
}

-- The same port cannot be bound twice.
bound_twice :
    (open_http small_acceptor [] (codes "h", 80) ≡ ok (80 ∷ []))
    × (open_http small_acceptor (80 ∷ []) (codes "h", 80) ≡ throws (runtime_error (codes "in use")))
unfolding open_http
bound_twice = (refl, refl)

open-first_error_example :
    (open_websocket small_acceptor (80 ∷ []) (codes "h", 80)
      ≡ plain small_acceptor (first_error (80 ∷ []) (calls small_acceptor (codes "h", 80))))
    × (open_http small_acceptor (80 ∷ []) (codes "h", 80)
        ≡ plain small_acceptor (first_error (80 ∷ []) (calls small_acceptor (codes "h", 80))))
    × (open_legacy small_acceptor (80 ∷ []) (codes "h", 80)
        ≡ placed small_acceptor (first_error (80 ∷ []) (calls small_acceptor (codes "h", 80))))
open-first_error_example = open-first_error small_acceptor (80 ∷ []) (codes "h", 80)

abbrev connect : Bytes → ℕ → Outcome ℕ
connect text i = ok i

-- A signal comes before the threads have done anything.
abbrev at_once : Server small_platform → Wait small_platform
at_once server = signalled (record {
  actors = server.system.actors;
  listener = server.listener;
  http_accepts = server.http_accepts;
})
