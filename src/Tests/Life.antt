-- ===== src/Tests/Life.antt =====
-- The life of a session: it sends a text, gets its echo, fails to read and is freed.
use svitock.Base.{
  ℕ, ◌==◌, ◌≡◌, refl, true, false, some, none, ◌>>=◌, [], ◌∷◌, Bytes, codes, ok, if◌then◌else◌,
}
use svitock.Base.{same}
use svitock.Base.Dict.{lookup, insert}
use svitock.Actor.Payload.{SessionOutgoingEvent, session, message, chat}
use svitock.Session.{
  bind_transport, WebSocketSession, Transports, make_session, run_session, on_accept, runs_task,
  completes, write_step, do_read, send,
}
use svitock.Runtime.{World, deliver, delivered_event}
use svitock.Runtime.Reading.{on_read}
use svitock.Runtime.Life.{
  Life, here, next, opens, accepts, reads, runs, writes, visits, dies, with_session, put,
}
use svitock.Runtime.Life.Connected.{IsConnected, IsOpen}
use svitock.Runtime.Life.Agreement.{Life-Agree}
use svitock.Runtime.Life.Reached.{deliver-Life}
use svitock.Runtime.{send_to, handle, handle_chat, handle_message, route_message, handle_session}
use svitock.Runtime.Worker.{visit, server_actors}
use svitock.Actor.Mailbox.{make_mailbox, push, pop}
use svitock.Actor.System.{register_actor, make_actor_system}
use svitock.Actor
use svitock.Session
use svitock.Tests.Json.{Value, write}
use svitock.Tests.Actors.{p, fresh, stamp, hello, hello_text, posted, hello_dispatched, world_of}

abbrev first : WebSocketSession
first = run_session (make_session (codes "1"))

abbrev opened : World p
opened = with_session p fresh 0 (fresh.transports, first)

abbrev accepted : World p
accepted =
    with_session p opened 0 (on_accept 0 (opened.transports, record first { accepting = 0 }) false)

-- It is open, and its outstanding read completes.
abbrev reader : WebSocketSession
reader = record first { accepting = 0; reads = 1 }

abbrev reading : World p
reading = with_session p accepted 0 (accepted.transports, record reader { reads = 0 })

abbrev asked : World p
asked = record reading {
  system = posted;
  objects = λ a. if a == 0 then some (do_read (record reader { reads = 0 })) else reading.objects a;
}

hello_read : on_read p reading 0 (record reader { reads = 0 }) false hello_text ≡ ok asked
unfolding make_session run_session on_read with_session on_accept
hello_read = rw hello_dispatched refl

first_part : Life p fresh asked
unfolding make_session run_session with_session put on_accept do_read
first_part =
    next
      (next (next here (opens 0 (codes "1") refl (λ a s h. cc)))
        (accepts 0 first 0 false refl refl))
      (reads 0 reader 0 false hello_text asked refl refl hello_read)

-- The workers bring the echo to the first session, whose strand writes it.
abbrev told : World p
told = world_of (visit p stamp asked message)

abbrev routed : World p
routed = world_of (visit p stamp told chat)

abbrev echoed : World p
echoed = world_of (visit p stamp routed session)

told_lem : visit p stamp asked message ≡ ok (told, true)
unfolding visit server_actors register_actor make_actor_system make_mailbox Actor.System.send push
    pop handle
told_lem = refl

routed_lem : visit p stamp told chat ≡ ok (routed, true)
unfolding visit server_actors register_actor make_actor_system make_mailbox Actor.System.send push
    pop handle handle_chat handle_message
routed_lem = refl

echoed_lem : visit p stamp routed session ≡ ok (echoed, true)
unfolding visit server_actors register_actor make_actor_system make_mailbox Actor.System.send push
    pop handle handle_chat handle_message handle_session deliver route_message lookup with_session
    on_accept bind_transport insert same run_session make_session
echoed_lem = refl

abbrev echo : Bytes
echo = write (delivered_event p hello)

abbrev told_session : WebSocketSession
told_session = record reader { posted = echo ∷ [] }

told_alive : echoed.objects 0 ≡ some told_session
unfolding visit server_actors register_actor make_actor_system make_mailbox Actor.System.send push
    pop handle handle_chat handle_message handle_session deliver route_message lookup with_session
    on_accept bind_transport insert same run_session make_session do_read put send_to Session.send
told_alive = refl

abbrev writing_session : WebSocketSession
writing_session = record reader { write_queue = echo ∷ []; writing = echo ∷ [] }

echo_runs :
    write_step (echoed.transports, told_session) runs_task ≡ ok (echoed.transports, writing_session)
unfolding write_step run_session make_session
echo_runs = refl

abbrev running : World p
running = with_session p echoed 0 (echoed.transports, writing_session)

abbrev written_session : WebSocketSession
written_session = record reader { delivered = echo ∷ [] }

echo_writes :
    write_step (running.transports, writing_session) (completes false)
    ≡ ok (running.transports, written_session)
unfolding write_step run_session make_session
echo_writes = refl

abbrev written : World p
written = with_session p running 0 (running.transports, written_session)

running_alive : running.objects 0 ≡ some writing_session
unfolding with_session put
running_alive = refl

whole : Life p fresh written
whole =
    next
      (next
        (next
          (next (next first_part (visits stamp message true told told_lem))
            (visits stamp chat true routed routed_lem))
          (visits stamp session true echoed echoed_lem))
        (runs 0 told_session (echoed.transports, writing_session) told_alive echo_runs))
      (writes 0 writing_session false (running.transports, written_session) running_alive
        echo_writes)

-- Its next read fails, and it is freed.
abbrev ended_session : WebSocketSession
ended_session = record written_session { reads = 0 }

abbrev ended : World p
ended = world_of (
    on_read p (with_session p written 0 (written.transports, ended_session)) 0 ended_session true []
    >>= λ w. ok (w, true))

abbrev freed : World p
freed = record ended { objects = put ended.objects 0 none }

written_alive : written.objects 0 ≡ some written_session
unfolding with_session put
written_alive = refl

ended_lem :
    on_read p (with_session p written 0 (written.transports, ended_session)) 0 ended_session true []
    ≡ ok ended
unfolding on_read
ended_lem = refl

ended_alive : ended.objects 0 ≡ some ended_session
unfolding on_read with_session put
ended_alive = refl

to_the_end : Life p fresh freed
unfolding run_session make_session
to_the_end =
    next (next whole (reads 0 written_session 0 true [] ended written_alive refl ended_lem))
      (dies 0 ended_session ended_alive (refl, refl, refl, refl))

Life-Agree_example : IsConnected freed.transports freed.objects
Life-Agree_example = Life-Agree p fresh freed refl (λ a. refl) to_the_end

abbrev notice : SessionOutgoingEvent Value
notice = record { session_id = codes "1"; payload = delivered_event p hello }

deliver-Life_example :
    ((address : ℕ) (s : WebSocketSession) (text : Bytes)
      → written.objects address ≡ some s
      → IsOpen s
      → s.session_id ≡ notice.session_id
      → p.json.dump notice.payload ≡ ok text
      → deliver p written notice
        ≡ ok (with_session p written address (written.transports, send s text)))
    × (((address : ℕ) (s : WebSocketSession)
          → written.objects address ≡ some s
          → s.session_id ≡ notice.session_id
          → IsOpen s
          → ⊥)
        → deliver p written notice ≡ ok written)
deliver-Life_example = deliver-Life p fresh written refl (λ a. refl) whole notice
