-- ===== src/Extern/Uuid.antt =====
-- boost::uuids: `string_generator` and `to_string`. Random identifiers are arguments of the model.
use svitock.Base.{◌≡◌, Bytes, Outcome, ok}

pub record UuidLib : Type 1 where
  pub Uuid : Type 0
  -- `string_generator{}(text)` throws on text that is no UUID.
  pub string_generator : Bytes → Outcome Uuid
  pub to_string : Uuid → Bytes

pub record IsUuid (lib : UuidLib) : Type 0 where
  pub string_generator-to_string : (u : lib.Uuid) → lib.string_generator (lib.to_string u) ≡ ok u
