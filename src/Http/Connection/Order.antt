-- ===== src/Http/Connection/Order.antt =====
-- Requests are answered one after the other, in order.
use svitock.Base.{
  ◌≡◌, refl, sym, ◌∙◌, ap, ◌⊎◌, inl, inr, Bool, true, false, List, [], ◌∷◌, ◌++◌, Outcome, ok,
  throws, ◌>>=◌, Exception, >>=_assoc, Outcome-cases, append-nil, if◌then◌else◌,
}
use svitock.Extern.Json.{JsonLib}
use svitock.Extern.Uuid.{UuidLib}
use svitock.Application.Ports.{MessageRepository}
use svitock.Http.{Request, Response, TokenService, route}
use svitock.Http.Connection.{
  HttpSession, make_http_session, do_read, ReadResult, request, end_of_stream, failure, on_read,
  on_write, HttpEvent, read_completes, write_completes, http_step, http_steps,
}
use mathlib.Core.Path.{fun_ext}

-- Where a connection stands: it reads, it writes its last response, or it is done.
abbrev pub IsReading : HttpSession → Type 0
IsReading s = (s.reads ≡ 1) × (s.writing ≡ []) × (s.answered ≡ s.responses)

abbrev pub IsWriting : HttpSession → Type 0
IsWriting s =
    (s.reads ≡ 0)
    × ((r : Response) × (close : Bool) × (s.writing ≡ (r, close) ∷ [])
        × (s.responses ≡ s.answered ++ r ∷ []))

abbrev pub IsDone : HttpSession → Type 0
IsDone s =
    (s.reads ≡ 0) × (s.writing ≡ []) × ((lost : List Response) × (s.responses ≡ s.answered ++ lost))

module _ (json : JsonLib) (uuid : UuidLib) (messages : MessageRepository uuid.Uuid) where
  -- The responses of the router to one request after the other.
  unfoldable pub answers :
      messages.State × List Response
      → List (TokenService × Request)
      → Outcome (messages.State × List Response)
  answers c [] = ok c
  answers (state, out) ((service, r) ∷ rs) = do
    routed ← route json uuid messages service state r
    answers (routed.0, out ++ routed.1 ∷ []) rs

  answers-snoc :
      (state : messages.State) (out : List Response) (rs : List (TokenService × Request))
      (service : TokenService) (r : Request)
      → answers (state, out) (rs ++ (service, r) ∷ [])
        ≡ (answers (state, out) rs >>= λ c. answers c ((service, r) ∷ []))
  unfolding answers
  answers-snoc state out [] service r = refl
  answers-snoc state out ((service', r') ∷ rs) service r =
      ap (route json uuid messages service' state r' >>=◌)
        (fun_ext λ routed. answers-snoc routed.0 (out ++ routed.1 ∷ []) rs service r)
      ∙ sym (>>=_assoc (route json uuid messages service' state r') _ _)

  -- The run returned, and its responses are the router's; or the router threw.
  pub record Serves (start : messages.State) (c : messages.State × HttpSession) : Type 0 where
    pub stage : IsReading c.1 ⊎ IsWriting c.1 ⊎ IsDone c.1
    pub routed : answers (start, []) c.1.received ≡ ok (c.0, c.1.responses)

  -- The router threw at a request that follows those that it answered.
  abbrev pub Throws : messages.State → Exception → Type 0
  Throws start x =
      (before : List (TokenService × Request)) × (answers (start, []) before ≡ throws x)

  abbrev pub Results : messages.State → Outcome (messages.State × HttpSession) → Type 0
  Results start (ok c) = Serves start c
  Results start (throws x) = Throws start x

  module _ (need_eof : Response → Bool) (start : messages.State) where
    on_read-Results :
        (state : messages.State) (s : HttpSession) (service : TokenService) (r : Request)
        → s.reads ≡ 0
        → s.writing ≡ []
        → s.answered ≡ s.responses
        → answers (start, []) s.received ≡ ok (state, s.responses)
        → Results start (on_read json uuid messages need_eof service (state, s) (request r))
    unfolding on_read answers
    on_read-Results state s service r idle unwritten same routed =
        let asked : answers (start, []) (s.received ++ (service, r) ∷ []) ≡ (
            route json uuid messages service state r >>= λ routed.
            ok (routed.0, s.responses ++ routed.1 ∷ [])) =
          rw (answers-snoc start [] s.received service r, routed) refl in
        elim (Outcome-cases (route json uuid messages service state r)) [
          | inl ((state', response), e) ↦
              rw (on_read, e)
                record {
                  stage =
                      inr (
                        inl (idle, (response, need_eof response, rw unwritten refl, rw same refl)));
                  routed = rw (asked, e) refl;
                }
          | inr (x, e) ↦ rw (on_read, e) (s.received ++ (service, r) ∷ [], rw (asked, e) refl)
        ]

    read_completes-Results :
        (state : messages.State) (s : HttpSession) (service : TokenService) (result : ReadResult)
        → s.reads ≡ 0
        → s.writing ≡ []
        → s.answered ≡ s.responses
        → answers (start, []) s.received ≡ ok (state, s.responses)
        → Results start (on_read json uuid messages need_eof service (state, s) result)
    unfolding on_read
    read_completes-Results state s service (request r) idle unwritten same routed =
        on_read-Results state s service r idle unwritten same routed
    read_completes-Results state s service end_of_stream idle unwritten same routed = record {
      stage = inr (inr (idle, unwritten, ([], rw (same, append-nil) refl)));
      routed = routed;
    }
    read_completes-Results state s service failure idle unwritten same routed = record {
      stage = inr (inr (idle, unwritten, ([], rw (same, append-nil) refl)));
      routed = routed;
    }

    write_completes-Results :
        (state : messages.State) (s : HttpSession) (r : Response) (failed close : Bool)
        → s.reads ≡ 0
        → s.responses ≡ s.answered ++ r ∷ []
        → answers (start, []) s.received ≡ ok (state, s.responses)
        → Results start (
            ok (
              state,
              on_write
                  (record s {
                    writing = [];
                    answered = if failed then s.answered else s.answered ++ r ∷ [];
                  })
                  failed
                  close,
            ))
    unfolding on_write do_read
    write_completes-Results state s r true close idle last routed = record {
      stage = inr (inr (idle, refl, (r ∷ [], last)));
      routed = routed;
    }
    write_completes-Results state s r false true idle last routed = record {
      stage = inr (inr (idle, refl, ([], rw (last, append-nil) refl)));
      routed = routed;
    }
    write_completes-Results state s r false false idle last routed = record {
      stage = inl (rw idle refl, refl, sym last);
      routed = routed;
    }

    http_step-Results :
        (c : messages.State × HttpSession) (e : HttpEvent)
        → Serves start c
        → Results start (http_step json uuid messages need_eof c e)
    unfolding http_step
    http_step-Results (state, s) (read_completes service result) serves = elim serves.stage [
      | inl (reading, unwritten, same) ↦
          rw (http_step, reading)
            (read_completes-Results state (record s { reads = 0 }) service result refl unwritten
              same serves.routed)
      | inr (inl (idle, writes)) ↦ rw (http_step, idle) serves
      | inr (inr (idle, unwritten, lost)) ↦ rw (http_step, idle) serves
    ]
    http_step-Results (state, s) (write_completes failed) serves = elim serves.stage [
      | inl (reading, unwritten, same) ↦ rw (http_step, unwritten) serves
      | inr (inl (idle, (response, close, writes, last))) ↦
          rw (http_step, writes)
            (write_completes-Results state s response failed close idle last serves.routed)
      | inr (inr (idle, unwritten, lost)) ↦ rw (http_step, unwritten) serves
    ]

    http_steps-Results :
        (c : messages.State × HttpSession) (es : List HttpEvent)
        → Serves start c
        → Results start (http_steps json uuid messages need_eof c es)
    unfolding http_steps
    http_steps-Results c [] serves = serves
    http_steps-Results c (e ∷ es) serves =
        let stepped = http_step-Results c e serves in
        elim (Outcome-cases (http_step json uuid messages need_eof c e)) [
          | inl (c', steps) ↦
              let serves' : Results start (ok c') = rw steps at stepped in
              rw (http_steps, steps) (http_steps-Results c' es serves')
          | inr (x, crash) ↦
              let thrown : Results start (throws x) = rw crash at stepped in
              rw (http_steps, crash) thrown
        ]

    -- Whatever completes with whatever result on a connection that starts to read: as long as the
    -- router does not throw, at most one operation is outstanding. The connection reads, and the
    -- socket has written every response; or it writes the last response, and has written those
    -- before it; or it is done, and what it wrote is a prefix of the responses. The responses and
    -- the state of the store are the router's to the received requests, one after the other, in
    -- their order. The run ends with an exception only if the router, asked one request after the
    -- other, throws this exception.
    pub http_steps_lem :
        (es : List HttpEvent)
        → Results start
            (http_steps json uuid messages need_eof (start, do_read make_http_session) es)
    unfolding do_read make_http_session answers
    http_steps_lem es =
        http_steps-Results (start, do_read make_http_session) es
          (record { stage = inl (refl, refl, refl); routed = refl })
