-- ===== src/Runtime/Reachable.antt =====
-- The states that a server reaches: network threads dispatch what sessions read, workers visit the
-- mailboxes, in any order.
use svitock.Base.{
  ℕ, ◌≡◌, refl, sym, subst, Bool, Option, [], Bytes, codes, same, Outcome, ok, Ensures, Ensures->>=,
  Ensures-ok, Ensures-if,
}
use svitock.Extern.Json.{parse_quietly}
use svitock.Extern.Queue.{IsFifo}
use svitock.Actor.Payload.{ActorType, SendMessageEvent, session, message}
use svitock.Actor.System.{ActorSystem}
use svitock.Dispatcher.{
  dispatch, dispatch_json, dispatch_type, dispatch_auth, dispatch_send_message, dispatch_typing,
  dispatch_read,
}
use svitock.Runtime.{Platform, Stamp, World}
use svitock.Runtime.Worker.{visit, server_actors}
use svitock.Runtime.Start.{server_actors-IsServer, queued-server_actors}
use svitock.Session.{WebSocketSession, Transports}
use svitock.Runtime.Provenance.{IsSound, post-IsSound, visit-IsSound}

module _ (p : Platform) (fifo : IsFifo p.queue) (P : SendMessageEvent → Type 0) where
  abbrev Keeps : Outcome (ActorSystem p.queue) → Type 0
  Keeps = Ensures (IsSound p P)

  module _ (s : ActorSystem p.queue) (v : IsSound p P s) (session_id : Bytes)
      (j : p.json.Json) where
    pub dispatch_auth-IsSound : Keeps (dispatch_auth p.json p.queue s session_id j)
    unfolding dispatch_auth
    dispatch_auth-IsSound =
        Ensures->>= (IsSound p P) (p.json.value_text j (codes "user_id") []) _
          λ u. post-IsSound p fifo P s session _ tt v

    dispatch_send_message-IsSound :
        ((e : SendMessageEvent) → e.session_id ≡ session_id → P e)
        → Keeps (dispatch_send_message p.json p.queue s session_id j)
    unfolding dispatch_send_message
    dispatch_send_message-IsSound h =
        Ensures->>= (IsSound p P) (p.json.value j (codes "payload") p.json.object) _ λ payload.
          Ensures->>= (IsSound p P) (p.json.value_text j (codes "chat_id") []) _ λ chat_id.
            Ensures->>= (IsSound p P) (p.json.value_text j (codes "sender_id") []) _ λ sender_id.
              Ensures->>= (IsSound p P) (p.json.value_text j (codes "recipient_session_id") []) _
                λ to.
                  Ensures->>= (IsSound p P) (p.json.value_text payload (codes "text") []) _
                    λ text. post-IsSound p fifo P s message _ (h _ refl) v

    pub dispatch_typing-IsSound : Keeps (dispatch_typing p.json p.queue s j)
    unfolding dispatch_typing
    dispatch_typing-IsSound =
        Ensures->>= (IsSound p P) (p.json.value_text j (codes "chat_id") []) _ λ chat_id.
          Ensures->>= (IsSound p P) (p.json.value_text j (codes "user_id") []) _
            λ user_id. post-IsSound p fifo P s message _ tt v

    pub dispatch_read-IsSound : Keeps (dispatch_read p.json p.queue s j)
    unfolding dispatch_read
    dispatch_read-IsSound =
        Ensures->>= (IsSound p P) (p.json.value_text j (codes "chat_id") []) _ λ chat_id.
          Ensures->>= (IsSound p P) (p.json.value_text j (codes "user_id") []) _ λ user_id.
            Ensures->>= (IsSound p P) (p.json.value_text j (codes "message_id") []) _
              λ message_id. post-IsSound p fifo P s message _ tt v

  pub dispatch-IsSound :
      (s : ActorSystem p.queue) (session_id raw_message : Bytes)
      → ((e : SendMessageEvent) → e.session_id ≡ session_id → P e)
      → IsSound p P s
      → Keeps (dispatch p.json p.queue s session_id raw_message)
  unfolding dispatch dispatch_json dispatch_type
  dispatch-IsSound s session_id raw h v =
      let j = parse_quietly p.json raw in
      Ensures-if (IsSound p P) (p.json.is_object j) _ _
        (Ensures->>= (IsSound p P) (p.json.value_text j (codes "type") []) _ λ type.
          Ensures-if (IsSound p P) (same type (codes "auth")) _ _
            (dispatch_auth-IsSound s v session_id j)
            (Ensures-if (IsSound p P) (same type (codes "send_message")) _ _
              (dispatch_send_message-IsSound s v session_id j h)
              (Ensures-if (IsSound p P) (same type (codes "typing")) _ _
                (dispatch_typing-IsSound s v session_id j)
                (Ensures-if (IsSound p P) (same type (codes "message_read")) _ _
                  (dispatch_read-IsSound s v session_id j) v))))
        v

module _ (p : Platform) (Connected : Bytes → Type 0) where
  -- One step of a thread, while no exception ends the process.
  pub data Step (w : World p) : World p → Type 0 where
    dispatches :
        (session_id raw_message : Bytes) (s : ActorSystem p.queue)
        → Connected session_id
        → dispatch p.json p.queue w.system session_id raw_message ≡ ok s
        → Step w (record w { system = s })
    -- A session is accepted, written to or closed: its handlers touch no mailbox.
    connects :
        (transports : Transports) (objects : ℕ → Option WebSocketSession)
        → Step w (record w { transports = transports; objects = objects })
    visits :
        (stamp : Stamp p) (t : ActorType) (processed : Bool) (w' : World p)
        → visit p stamp w t ≡ ok (w', processed)
        → Step w w'

  pub data Reach (w : World p) : World p → Type 0 where
    here : Reach w w
    next : {v u : World p} → Reach w v → Step v u → Reach w u

  pub Reach-append : {w v u : World p} → Reach w v → Reach v u → Reach w u
  Reach-append r here = r
  Reach-append r (next r' st) = next (Reach-append r r') st

module _ (p : Platform) (fifo : IsFifo p.queue) (Connected : Bytes → Type 0) where
  abbrev pub FromClient : SendMessageEvent → Type 0
  FromClient e = Connected e.session_id

  pub Step-IsSound :
      {w w' : World p}
      → Step p Connected w w'
      → IsSound p FromClient w.system
      → IsSound p FromClient w'.system
  Step-IsSound {w} (dispatches session_id raw s c e) v =
      Ensures-ok (IsSound p FromClient) (dispatch p.json p.queue w.system session_id raw) s
        (dispatch-IsSound p fifo FromClient w.system session_id raw
          (λ e' same_id. subst Connected (sym same_id) c) v)
        e
  Step-IsSound (connects transports objects) v = v
  Step-IsSound {w} (visits stamp t processed w' e) v =
      visit-IsSound p fifo FromClient stamp w t w' processed v e

  pub Reach-IsSound :
      {w w' : World p}
      → Reach p Connected w w'
      → IsSound p FromClient w.system
      → IsSound p FromClient w'.system
  Reach-IsSound here v = v
  Reach-IsSound (next r st) v = Step-IsSound st (Reach-IsSound r v)

  pub server_actors-IsSound : (capacity : ℕ) → IsSound p FromClient (server_actors p capacity)
  server_actors-IsSound capacity = record {
    server = server_actors-IsServer p capacity;
    genuine = λ t. rw (queued-server_actors p fifo capacity t) tt;
  }
