-- ===== src/Postgres/Chats/Found.antt =====
-- A chat that was created is found under its identifier.
use svitock.Base.{
  ℕ, ◌≤◌, ◌<◌, ◌≡◌, refl, sym, inl, inr, ap, ◌∙◌, subst, true, Option, some, List, [], ◌∷◌, codes,
  same, same_refl, ok, arith,
}
use svitock.Base.Dict.{Dict, lookup}
use svitock.Extern.Postgres.{
  PostgresLib, IsPostgres, Value, text, int32, chat_table, columns_of, new_row, where_text,
  GivesAll,
}
use svitock.Extern.Uuid.{UuidLib, IsUuid}
use svitock.Domain.{Chat, ChatType, direct, group, unnamed}
use svitock.Postgres.{Store}
use svitock.Postgres.Rows.{insert_into_chats, select_chats, perm_of_one, one_match}
use svitock.Postgres.Calls.{insertion_call_lem, search_call_lem}
use svitock.Postgres.Chats.{number_of_type, type_of_number, first_chat, find_by_id, create}

-- The value of a type is that of its name, or another one of its 8 bits.
abbrev pub IsByte : ChatType → Type 0
IsByte direct = Unit
IsByte group = Unit
IsByte (unnamed n) = (2 ≤ n) × (n < 256)

type_of_number-number_of_type :
    (type : ChatType) → IsByte type → type_of_number (number_of_type type) ≡ type
unfolding type_of_number number_of_type
type_of_number-number_of_type direct h = refl
type_of_number-number_of_type group h = refl
type_of_number-number_of_type (unnamed n) h = ground arith

module _ (lib : PostgresLib) (uuid : UuidLib) where
  open uuid use {Uuid, to_string}

  abbrev chat_row : Chat Uuid → ℕ → Dict Value
  chat_row chat stamp =
      new_row (columns_of chat_table)
        (text (to_string chat.id) ∷ int32 (number_of_type chat.type) ∷ []) stamp

  first_chat_lem :
      (now stamp : ℕ) (chat : Chat Uuid) (result : List lib.Row)
      → IsUuid uuid
      → IsByte chat.type
      → GivesAll lib (columns_of chat_table) (chat_row chat stamp ∷ []) result
      → first_chat lib uuid now result ≡ ok (some (record chat { created_at = now }))
  unfolding first_chat lookup same
  first_chat_lem now stamp chat [] ids byte gives = absurd gives
  first_chat_lem now stamp chat (r ∷ []) ids byte ((id, (type, end)), last) =
      rw
        (
          id,
          type,
          ids.string_generator-to_string chat.id,
          type_of_number-number_of_type chat.type byte,
        )
        refl
  first_chat_lem now stamp chat (r ∷ r' ∷ rs) ids byte (given, more) = absurd more

  -- Over a server that keeps to its documentation: where the identifier of the chat was free and
  -- its type has a value of 8 bits, the search that follows a creation, if both return, gives the
  -- chat with its type, and with the time of the search.
  pub find_by_id-create :
      (now : ℕ) (s s' s'' : Store lib) (chat : Chat Uuid) (found : Option (Chat Uuid))
      → IsPostgres lib
      → IsUuid uuid
      → IsByte chat.type
      → where_text (codes "id") (to_string chat.id) (lib.rows s.server chat_table) ≡ []
      → create lib uuid s chat ≡ ok (s', true)
      → find_by_id lib uuid now s' chat.id ≡ ok (s'', found)
      → found ≡ some (record chat { created_at = now })
  unfolding create find_by_id same lookup
  find_by_id-create now s s' s'' chat found postgres ids byte free creates finds =
      let (success, (stamp, added)) =
        insertion_call_lem postgres s s' true chat_table
          (text (to_string chat.id) ∷ int32 (number_of_type chat.type) ∷ []) refl
          (rw insert_into_chats creates) in
      let (w, w', result, sees, executed, reads, left) =
        search_call_lem postgres s' s'' _ (text (to_string chat.id) ∷ []) (first_chat lib uuid now)
          found (chat_table, inr (inl (sym select_chats))) finds in
      let (order, permuted, gives) =
        postgres.search w w' chat_table (to_string chat.id) result (rw select_chats executed) in
      let matching =
        one_match (codes "id") (to_string chat.id) (chat_row chat stamp)
          (lib.rows s.server chat_table) (lib.rows s'.server chat_table) (added chat_table)
          (same_refl (to_string chat.id)) free in
      let one =
        perm_of_one (chat_row chat stamp) permuted
          (ap (where_text (codes "id") (to_string chat.id)) (sees chat_table) ∙ matching) in
      let read =
        first_chat_lem now stamp chat result ids byte
          (subst (λ stored. GivesAll lib (columns_of chat_table) stored result) one gives) in
      cc
