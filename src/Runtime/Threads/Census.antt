-- ===== src/Runtime/Threads/Census.antt =====
-- However the threads interleave, a message reaches the repository at most as often as it was sent.
use svitock.Base.{◌+◌, ◌≤◌, List, [], ◌++◌, Bytes}
use svitock.Extern.Queue.{IsFifo}
use svitock.Domain.{Message}
use svitock.Application.Ports.{KeepsMessages}
use svitock.Actor.Payload.{
  ActorType, SendMessageEvent, StoragePersistMessage, session, chat, message, storage,
}
use svitock.Actor.System.{
  Actor, ActorClass, session_actor, chat_actor, message_actor, storage_actor,
}
use svitock.Runtime.{Platform}
use svitock.Runtime.Letters.Requests.{requested}
use svitock.Runtime.Letters.Storing.{AllWritten, Stores}
use svitock.Runtime.Threads.{
  Crew, Turn, Turns, dispatches, connects, starts, stops, takes, takes_nothing, finishes, first,
  then_turn, idle,
}
use svitock.Runtime.Threads.Copies.{copies, on_their_way}

type_of : ActorClass → ActorType
type_of session_actor = session
type_of chat_actor = chat
type_of message_actor = message
type_of storage_actor = storage

module _ (p : Platform) (keeps : KeepsMessages p.messages) where
  pub record IsCounted (old : List (Message p.uuid.Uuid)) (asked : List StoragePersistMessage)
      (c : Crew p) : Type 0 where
    pub done : List StoragePersistMessage
    pub new : List (Message p.uuid.Uuid)
    pub holds : keeps.Holds c.world.stored (old ++ new)
    pub written : AllWritten p.uuid done new
    pub counted : (l : StoragePersistMessage) → copies l done + on_their_way p l c ≤ copies l asked

  module _ (fifo : IsFifo p.queue) where
    -- What a turn does to the letters.
    abbrev Advances : Crew p → Crew p → List StoragePersistMessage → Type 0
    Advances c c' more =
        (x : List StoragePersistMessage) × Stores p keeps c.world.stored x c'.world.stored
        × ((l : StoragePersistMessage)
            → copies l x + on_their_way p l c' ≤ on_their_way p l c + copies l more)

module _ (p : Platform) (Connected : Bytes → Type 0) where
  -- The messages that the texts of a run ask to send, in the order in which they were dispatched.
  abbrev said : {c c' : Crew p} → Turn p Connected c c' → List SendMessageEvent
  said (dispatches session_id raw_message s known e) = requested p.json session_id raw_message
  said (connects transports objects) = []
  said (starts worker_threads) = []
  said (stops idle) = []
  said (takes t actor e free found popped) = []
  said (takes_nothing t actor found empty) = []
  said (finishes stamp before after class payload w' held handled) = []

  abbrev pub asked : {c c' : Crew p} → Turns p Connected c c' → List SendMessageEvent
  asked first = []
  asked (then_turn r turn) = asked r ++ said turn
