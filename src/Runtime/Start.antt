-- ===== src/Runtime/Start.antt =====
-- The actors of a new server.
use svitock.Base.{ℕ, ◌+◌, ◌≤◌, ◌≡◌, refl, true, [], length, arith}
use svitock.Extern.Queue.{IsFifo}
use svitock.Actor.Payload.{ActorType, session, chat, message, storage}
use svitock.Actor.Mailbox.{make_mailbox}
use svitock.Actor.System.Routing.{queued, HasRoom}
use svitock.Runtime.{Platform}
use svitock.Runtime.Worker.{server_actors}
use svitock.Runtime.Provenance.{IsServer}

module _ (p : Platform) where
  pub server_actors-IsServer : (capacity : ℕ) → IsServer p (server_actors p capacity)
  unfolding server_actors
  server_actors-IsServer capacity session = refl
  server_actors-IsServer capacity chat = refl
  server_actors-IsServer capacity message = refl
  server_actors-IsServer capacity storage = refl

  pub queued-server_actors :
      (fifo : IsFifo p.queue) (capacity : ℕ) (t : ActorType)
      → queued p.queue (server_actors p capacity) t ≡ []
  unfolding server_actors make_mailbox
  queued-server_actors fifo capacity session = fifo.contents-make capacity
  queued-server_actors fifo capacity chat = fifo.contents-make capacity
  queued-server_actors fifo capacity message = fifo.contents-make capacity
  queued-server_actors fifo capacity storage = fifo.contents-make capacity

  room :
      (fifo : IsFifo p.queue) (capacity n : ℕ)
      → n ≤ capacity
      → (true ≡ true)
        × (length (p.queue.contents (p.queue.make capacity)) + n
            ≤ p.queue.capacity (p.queue.make capacity))
  room fifo capacity n h =
      (refl, rw (fifo.contents-make capacity, fifo.capacity-make capacity) (omega arith))

  -- A new mailbox has room for as many envelopes as it has nodes.
  pub HasRoom-server_actors :
      (fifo : IsFifo p.queue) (capacity n : ℕ) (t : ActorType)
      → n ≤ capacity
      → HasRoom p.queue (server_actors p capacity) t n
  unfolding server_actors make_mailbox
  HasRoom-server_actors fifo capacity n session h = room fifo capacity n h
  HasRoom-server_actors fifo capacity n chat h = room fifo capacity n h
  HasRoom-server_actors fifo capacity n message h = room fifo capacity n h
  HasRoom-server_actors fifo capacity n storage h = room fifo capacity n h
