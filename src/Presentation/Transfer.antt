-- ===== src/Presentation/Transfer.antt =====
-- Transfer objects are read back from what they are written to.
use svitock.Base.{◌≡◌, refl, ap, ◌∙◌, ◌∷◌, Bytes, codes, same, ok}
use svitock.Base.Dict.{Dict, lookup}
use svitock.Extern.Json.{JsonLib, IsJson, fields, member_at, member_text}
use svitock.Presentation.{MessageEventDto, to_json, from_json}

module _ (json : JsonLib) (laws : IsJson json) where
  open json use {Json, text, is_object, member, read_text}

  at_key-fields :
      (kv : Bytes × Json) (kvs : Dict Json) (k : Bytes)
      → json.at_key (fields json (kv ∷ kvs)) k ≡ member_at (lookup k (kv ∷ kvs))
  at_key-fields kv kvs k =
      laws.at_key-object _ k (laws.is_object-fields kv kvs)
      ∙ ap member_at (laws.member-fields kv kvs k)

  get_text-text : (t : Bytes) → json.get_text (text t) ≡ ok t
  get_text-text t = laws.get_text_lem (text t) ∙ ap member_text (laws.read_text-text t)

  -- What is written is read back, whatever the texts and the payload.
  pub from_json-to_json : (dto : MessageEventDto json) → from_json json (to_json json dto) ≡ ok dto
  unfolding from_json to_json lookup same
  from_json-to_json dto =
      rw
        (
          at_key-fields _ _ (codes "type"),
          at_key-fields _ _ (codes "chat_id"),
          at_key-fields _ _ (codes "payload"),
          get_text-text dto.type,
          get_text-text dto.chat_id,
        )
        refl
