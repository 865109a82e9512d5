-- ===== src/Tests/Platform.antt =====
-- The other libraries, and a repository in memory.
use svitock.Base.{
  ℕ, ◌+◌, ◌≡◌, refl, true, false, Option, none, some, List, [], ◌∷◌, ◌++◌, Bytes, Outcome, ok,
  throws, invalid_uuid, length, same, ltb, if◌then◌else◌, arith, take,
}
use svitock.Extern.Queue.{QueueLib, IsFifo, Pops}
use svitock.Extern.Uuid.{UuidLib, IsUuid}
use svitock.Extern.Digest.{Sha1}
use svitock.Domain.{Message}
use svitock.Application.Ports.{MessageRepository}
use svitock.Runtime.{Platform}
use svitock.Tests.Json.{small_json}

-- A list with a number of nodes.
abbrev list_pop : {A : Type 0} → List A → ℕ → (List A × ℕ) × Option A
list_pop [] n = (([], n), none)
list_pop (a ∷ s) n = ((s, n), some a)

abbrev pub list_queue : (A : Type 0) → QueueLib A
list_queue A = record {
  Queue = List A × ℕ;
  make = λ n. ([], n);
  bounded_push = λ s a. (if ltb (length s.0) s.1 then ((s.0 ++ a ∷ [], s.1), true) else (s, false));
  pop = λ s. list_pop s.0 s.1;
  contents = λ s. s.0;
  capacity = λ s. s.1;
}

list_pop-Pops : {A : Type 0} (s : List A) (n : ℕ) → Pops s (list_pop s n).1 (list_pop s n).0.0
list_pop-Pops [] n = (refl, refl)
list_pop-Pops (a ∷ s) n = refl

list_pop-nodes : {A : Type 0} (s : List A) (n : ℕ) → (list_pop s n).0.1 ≡ n
list_pop-nodes [] n = refl
list_pop-nodes (a ∷ s) n = refl

pub list_queue-IsFifo : (A : Type 0) → IsFifo (list_queue A)
list_queue-IsFifo A = record {
  contents-make = λ n. refl;
  capacity-make = λ n. refl;
  push_accepted = λ s a h. ground arith;
  contents-push = λ s a. ground arith;
  capacity-push = λ s a. ground arith;
  contents-pop = λ s. list_pop-Pops s.0 s.1;
  capacity-pop = λ s. list_pop-nodes s.0 s.1;
}

-- An identifier is written with a leading byte; the empty text is none.
abbrev uuid_of : Bytes → Outcome Bytes
uuid_of [] = throws invalid_uuid
uuid_of (c ∷ s) = ok s

abbrev pub small_uuid : UuidLib
small_uuid = record { Uuid = Bytes; string_generator = uuid_of; to_string = λ u. b'u' ∷ u }

pub small_uuid-IsUuid : IsUuid small_uuid
small_uuid-IsUuid = record { string_generator-to_string = λ u. refl }

abbrev of_chat : Bytes → List (Message Bytes) → List (Message Bytes)
of_chat c [] = []
of_chat c (m ∷ ms) = let rest = of_chat c ms in if same m.chat_id c then m ∷ rest else rest

-- The newest message first.
abbrev pub memory_repository : MessageRepository Bytes
memory_repository = record {
  State = List (Message Bytes);
  create = λ s m. ok (m ∷ s, true);
  get_by_chat = λ s c n. ok (s, take n (of_chat c s));
}

abbrev pub small_platform : Platform
small_platform = record {
  json = small_json;
  uuid = small_uuid;
  queue = list_queue _;
  messages = memory_repository;
}

abbrev sum : Bytes → ℕ
sum [] = 0
sum (b ∷ s) = b + sum s

-- A digest that is easy to follow.
abbrev pub small_sha1 : Sha1
small_sha1 s = record { d0 = length s; d1 = sum s; d2 = 1; d3 = 2; d4 = 3 }
