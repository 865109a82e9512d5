-- ===== src/Extern/Json.antt =====
-- nlohmann::json, which the dispatchers, the actors, the router and the JWT service call.
use svitock.Base.{
  ℕ, ◌≡◌, Bool, true, false, Option, none, some, List, [], ◌∷◌, map, Bytes, Outcome, ok, throws,
  type_error, out_of_range,
}
use svitock.Base.Dict.{Dict, lookup}

pub record JsonLib : Type 1 where
  pub Json : Type 0
  -- `parse(raw)`: throws on text that is no JSON.
  pub parse : Bytes → Outcome Json
  -- What `parse(raw, nullptr, false)` returns for such text.
  pub discarded : Json
  pub is_object : Json → Bool
  -- `j.value(key, default)` at a text default and at a JSON default.
  pub value_text : Json → Bytes → Bytes → Outcome Bytes
  pub value : Json → Bytes → Json → Outcome Json
  -- `j.at(key)`, and `get_to` of a string.
  pub at_key : Json → Bytes → Outcome Json
  pub get_text : Json → Outcome Bytes
  -- Values made from a string, an unsigned number and an initializer list; `json::object()`.
  pub text : Bytes → Json
  pub number : ℕ → Json
  pub list : List Json → Json
  pub object : Json
  -- `json::array()` after `push_back` of each.
  pub array : List Json → Json
  -- `dump()` throws on a string that is no UTF-8; with `error_handler_t::replace` it does not.
  pub dump : Json → Outcome Bytes
  pub dump_replace : Json → Bytes
  -- What the laws speak of: the member of an object, and the text of a string.
  pub member : Json → Bytes → Option Json
  pub read_text : Json → Option Bytes

module _ (lib : JsonLib) where
  open lib use {Json, parse, discarded, text, list}

  -- `parse(raw, nullptr, false)`.
  unfoldable pub parse_quietly : Bytes → Json
  parse_quietly raw = elim (parse raw) [ ok j ↦ j | throws e ↦ discarded ]

  pub parse_quietly_of_ok : (raw : Bytes) (j : Json) → parse raw ≡ ok j → parse_quietly raw ≡ j
  unfolding parse_quietly
  parse_quietly_of_ok raw j h = rw (h, parse_quietly)

  -- `{key, value}` inside an initializer list.
  abbrev pub pair : Bytes × Json → Json
  pair (key, v) = list (text key ∷ v ∷ [])

  -- `json{{key, value}, …}`.
  abbrev pub fields : List (Bytes × Json) → Json
  fields kvs = list (map pair kvs)

-- What `value` does with a member that is there.
abbrev pub member_text : Option Bytes → Outcome Bytes
member_text none = throws type_error
member_text (some t) = ok t

abbrev pub or_default {ℓ κ} : {A : Type ℓ} {B : Type κ} → Option A → B → (A → B) → B
or_default none d f = d
or_default (some a) d f = f a

-- What `at` does with a member that may be missing.
abbrev pub member_at {ℓ} : {A : Type ℓ} → Option A → Outcome A
member_at none = throws out_of_range
member_at (some a) = ok a

-- The documented behaviour of the library.
pub record IsJson (lib : JsonLib) : Type 0 where
  pub is_object-discarded : lib.is_object lib.discarded ≡ false
  -- A list of pairs that begin with a string is an object, and the first of two equal keys counts.
  pub is_object-fields :
      (kv : Bytes × lib.Json) (kvs : Dict lib.Json) → lib.is_object (fields lib (kv ∷ kvs)) ≡ true
  pub member-fields :
      (kv : Bytes × lib.Json) (kvs : Dict lib.Json) (k : Bytes)
      → lib.member (fields lib (kv ∷ kvs)) k ≡ lookup k (kv ∷ kvs)
  pub read_text-text : (t : Bytes) → lib.read_text (lib.text t) ≡ some t
  pub value_text-object :
      (j : lib.Json) (k d : Bytes)
      → lib.is_object j ≡ true
      → lib.value_text j k d
        ≡ or_default (lib.member j k) (ok d) (λ v. member_text (lib.read_text v))
  pub value_text-other :
      (j : lib.Json) (k d : Bytes)
      → lib.is_object j ≡ false
      → lib.value_text j k d ≡ throws type_error
  pub value-object :
      (j : lib.Json) (k : Bytes) (d : lib.Json)
      → lib.is_object j ≡ true
      → lib.value j k d ≡ or_default (lib.member j k) (ok d) (λ v. ok v)
  pub value-other :
      (j : lib.Json) (k : Bytes) (d : lib.Json)
      → lib.is_object j ≡ false
      → lib.value j k d ≡ throws type_error
  pub at_key-object :
      (j : lib.Json) (k : Bytes)
      → lib.is_object j ≡ true
      → lib.at_key j k ≡ member_at (lib.member j k)
  pub at_key-other :
      (j : lib.Json) (k : Bytes) → lib.is_object j ≡ false → lib.at_key j k ≡ throws type_error
  pub get_text_lem : (j : lib.Json) → lib.get_text j ≡ member_text (lib.read_text j)
