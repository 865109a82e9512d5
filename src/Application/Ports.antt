-- ===== src/Application/Ports.antt =====
-- application/interfaces: the abstract repositories, with their state made explicit.
use svitock.Base.{
  ℕ, ◌≡◌, Bool, true, Option, some, List, [], ◌∷◌, ◌++◌, Bytes, Outcome, ok, if◌then◌else◌,
}
use svitock.Domain.{Message, Chat, User}

pub record MessageRepository (Uuid : Type 0) : Type 1 where
  pub State : Type 0
  pub create : State → Message Uuid → Outcome (State × Bool)
  pub get_by_chat : State → Uuid → ℕ → Outcome (State × List (Message Uuid))

pub record ChatRepository (Uuid : Type 0) : Type 1 where
  pub State : Type 0
  pub create : State → Chat Uuid → Outcome (State × Bool)
  pub find_by_id : State → Uuid → Outcome (State × Option (Chat Uuid))

pub record UserRepository (Uuid : Type 0) : Type 1 where
  pub State : Type 0
  pub find_by_username : State → Bytes → Outcome (State × Option (User Uuid))
  pub create : State → User Uuid → Outcome (State × Bool)

-- A user that `create` reports as stored is found under its name, with its password.
pub record KeepsUsers {Uuid : Type 0} (users : UserRepository Uuid) : Type 0 where
  pub find-create :
      (s s' : users.State) (u : User Uuid)
      → users.create s u ≡ ok (s', true)
      → (s'' : users.State) × (found : User Uuid) × (users.find_by_username s' u.username
          ≡ ok (s'', some found))
        × (found.password_hash ≡ u.password_hash)

-- Two messages that differ in their times at most.
abbrev pub SameMessage : {Uuid : Type 0} → Message Uuid → Message Uuid → Type 0
SameMessage a b =
    (a.id ≡ b.id) × (a.chat_id ≡ b.chat_id) × (a.sender_id ≡ b.sender_id) × (a.content ≡ b.content)

-- A creation that reports success adds the message behind those that are held, perhaps with another
-- time; one that reports failure adds nothing.
pub record KeepsMessages {Uuid : Type 0} (messages : MessageRepository Uuid) : Type 1 where
  pub Holds : messages.State → List (Message Uuid) → Type 0
  pub create-Holds :
      (s s' : messages.State) (ms : List (Message Uuid)) (m : Message Uuid) (stored : Bool)
      → Holds s ms
      → messages.create s m ≡ ok (s', stored)
      → (m' : Message Uuid) × SameMessage m' m × Holds s' (if stored then ms ++ m' ∷ [] else ms)
