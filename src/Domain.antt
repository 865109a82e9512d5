-- ===== src/Domain.antt =====
-- domain/user, domain/chat and domain/message: the entities, over an unknown type of identifiers.
-- A time point is a number.
use svitock.Base.{ℕ, Bytes}

pub record User (Uuid : Type 0) : Type 0 where
  pub id : Uuid
  pub username : Bytes
  pub password_hash : Bytes
  pub created_at : ℕ

-- A conversion to the enumeration may give a number that it does not name.
pub data ChatType : Type 0 where
  direct group : ChatType
  unnamed : ℕ → ChatType

pub record Chat (Uuid : Type 0) : Type 0 where
  pub id : Uuid
  pub type : ChatType
  pub created_at : ℕ

pub record Message (Uuid : Type 0) : Type 0 where
  pub id : Uuid
  pub chat_id : Uuid
  pub sender_id : Uuid
  pub content : Bytes
  pub created_at : ℕ
