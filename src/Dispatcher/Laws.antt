-- ===== src/Dispatcher/Laws.antt =====
-- What a client's text becomes.
use svitock.Base.{◌≡◌, refl, ◌∙◌, ap, [], ◌∷◌, Bytes, codes, same, ok}
use svitock.Base.Dict.{Dict, lookup}
use svitock.Extern.Json.{JsonLib, IsJson, fields, parse_quietly_of_ok, or_default, member_text}
use svitock.Extern.Queue.{QueueLib}
use svitock.Actor.Payload.{ActorType, ActorEnvelope, SendMessageEvent, send_message}
use svitock.Actor.System.{ActorSystem}
use svitock.Dispatcher.{post, dispatch, dispatch_json, dispatch_type, dispatch_send_message}

module _ (json : JsonLib) where
  -- The object that a client sends for a message.
  abbrev pub rest_of : SendMessageEvent → Dict json.Json
  rest_of e =
      (codes "chat_id", json.text e.chat_id)
      ∷ (codes "sender_id", json.text e.sender_id)
      ∷ (codes "recipient_session_id", json.text e.recipient_id)
      ∷ (codes "payload", fields json ((codes "text", json.text e.text) ∷ []))
      ∷ []

  abbrev first : Bytes × json.Json
  first = (codes "type", json.text (codes "send_message"))

  abbrev pub client_message : SendMessageEvent → json.Json
  client_message e = fields json (first ∷ rest_of e)

module _ (json : JsonLib) (laws : IsJson json) where
  pub value_text-fields :
      (kv : Bytes × json.Json) (kvs : Dict json.Json) (k d : Bytes)
      → json.value_text (fields json (kv ∷ kvs)) k d
        ≡ or_default (lookup k (kv ∷ kvs)) (ok d) (λ v. member_text (json.read_text v))
  value_text-fields kv kvs k d =
      laws.value_text-object (fields json (kv ∷ kvs)) k d (laws.is_object-fields kv kvs)
      ∙ ap (λ o. or_default o (ok d) (λ v. member_text (json.read_text v)))
          (laws.member-fields kv kvs k)

  value-fields :
      (kv : Bytes × json.Json) (kvs : Dict json.Json) (k : Bytes) (d : json.Json)
      → json.value (fields json (kv ∷ kvs)) k d
        ≡ or_default (lookup k (kv ∷ kvs)) (ok d) (λ v. ok v)
  value-fields kv kvs k d =
      laws.value-object (fields json (kv ∷ kvs)) k d (laws.is_object-fields kv kvs)
      ∙ ap (λ o. or_default o (ok d) (λ v. ok v)) (laws.member-fields kv kvs k)

  module _ (q : QueueLib (ActorEnvelope json.Json)) (s : ActorSystem q) where
    decode :
        (e : SendMessageEvent)
        → dispatch_send_message json q s e.session_id (client_message json e)
          ≡ ok (post json q s ActorType.message (send_message e))
    unfolding dispatch_send_message lookup same
    decode e =
        rw
          (
            value-fields (first json) (rest_of json e) (codes "payload") json.object,
            value_text-fields (first json) (rest_of json e) (codes "chat_id") [],
            laws.read_text-text e.chat_id,
            value_text-fields (first json) (rest_of json e) (codes "sender_id") [],
            laws.read_text-text e.sender_id,
            value_text-fields (first json) (rest_of json e) (codes "recipient_session_id") [],
            laws.read_text-text e.recipient_id,
            value_text-fields (codes "text", json.text e.text) [] (codes "text") [],
            laws.read_text-text e.text,
          )
          refl

    -- A text that the JSON library reads as the object of a message is dispatched to the message
    -- actor as exactly this message, from the session that it came in.
    pub dispatch-client_message :
        (e : SendMessageEvent) (raw_message : Bytes)
        → json.parse raw_message ≡ ok (client_message json e)
        → dispatch json q s e.session_id raw_message
          ≡ ok (post json q s ActorType.message (send_message e))
    unfolding dispatch dispatch_json dispatch_type lookup same
    dispatch-client_message e raw h =
        rw
          (
            parse_quietly_of_ok json raw (client_message json e) h,
            laws.is_object-fields (first json) (rest_of json e),
            value_text-fields (first json) (rest_of json e) (codes "type") [],
            laws.read_text-text (codes "send_message"),
          )
          (decode e)
