-- ===== src/Http/Accepting.antt =====
-- infrastructure/network/http/http_listener: connections become sessions that read at once.
use svitock.Base.{
  ℕ, ◌+◌, ◌-◌, ◌≡◌, refl, Bool, true, false, List, [], ◌∷◌, ◌++◌, length, length-append, All,
  All-append, subst, arith, if◌then◌else◌,
}
use svitock.Http.Connection.{HttpSession, make_http_session, do_read}
use svitock.Http.Connection.Order.{IsReading}

-- `sessions` are the sessions it has made, in order; `accepts` counts the outstanding accepts.
pub record HttpListener : Type 0 where
  pub sessions : List HttpSession
  pub accepts : ℕ

unfoldable pub make_http_listener : HttpListener
make_http_listener = record { sessions = []; accepts = 0 }

unfoldable pub do_accept : HttpListener → HttpListener
do_accept l = record l { accepts = l.accepts + 1 }

-- `run` of a session is `doRead`.
unfoldable pub on_accept : HttpListener → Bool → HttpListener
unfolding do_accept do_read make_http_session
on_accept l failed =
    if failed
    then do_accept l
    else do_accept (record l { sessions = l.sessions ++ do_read make_http_session ∷ [] })

-- The outstanding accepts that complete, each with an error or without one.
unfoldable pub completions : HttpListener → List Bool → HttpListener
completions l [] = l
completions l (failed ∷ rest) =
    completions (on_accept (record l { accepts = l.accepts - 1 }) failed) rest

abbrev pub successes : List Bool → ℕ
successes [] = 0
successes (failed ∷ rest) = (if failed then 0 else 1) + successes rest

-- One accept is outstanding, and every session reads.
abbrev pub IsAccepting : ℕ → HttpListener → Type 0
IsAccepting n l = (l.accepts ≡ 1) × (length l.sessions ≡ n) × All IsReading l.sessions

on_accept-IsAccepting :
    (n : ℕ) (l : HttpListener) (failed : Bool)
    → IsAccepting n l
    → IsAccepting
        (n + (if failed then 0 else 1))
        (on_accept (record l { accepts = l.accepts - 1 }) failed)
unfolding on_accept do_accept do_read make_http_session
on_accept-IsAccepting n l true (one, count, reading) =
    (omega (arith, one), omega (arith, count), reading)
on_accept-IsAccepting n l false (one, count, reading) = (
  omega (arith, one),
  rw (length-append l.sessions (do_read make_http_session ∷ [])) (omega (arith, count)),
  All-append IsReading l.sessions _ reading ((refl, refl, refl), tt),
)

completions-IsAccepting :
    (n : ℕ) (l : HttpListener) (outcomes : List Bool)
    → IsAccepting n l
    → IsAccepting (n + successes outcomes) (completions l outcomes)
unfolding completions
completions-IsAccepting n l [] v = subst (λ k. IsAccepting k l) (omega arith) v
completions-IsAccepting n l (failed ∷ rest) v =
    subst
      (λ k.
        IsAccepting k (completions (on_accept (record l { accepts = l.accepts - 1 }) failed) rest))
      (omega arith)
      (completions-IsAccepting (n + (if failed then 0 else 1)) _ rest
        (on_accept-IsAccepting n l failed v))

-- Whichever accepts of a listener that was started complete, with errors or without: one accept is
-- outstanding, there is one session for each that succeeded, and each session has one outstanding
-- read and nothing to write.
pub completions-do_accept :
    (outcomes : List Bool)
    → IsAccepting (successes outcomes) (completions (do_accept make_http_listener) outcomes)
unfolding do_accept make_http_listener
completions-do_accept outcomes =
    subst (λ k. IsAccepting k (completions (do_accept make_http_listener) outcomes)) (omega arith)
      (completions-IsAccepting 0 (do_accept make_http_listener) outcomes (refl, refl, tt))
