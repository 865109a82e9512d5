-- ===== src/Postgres/Messages/History.antt =====
-- The messages of a chat: what was created is what the search gives.
use mathlib.Core.List.{Permᴰ, map-append}
use svitock.Base.{
  ℕ, zero, suc, ◌≡◌, refl, sym, ap, ◌∙◌, inl, inr, Bool, true, List, [], ◌∷◌, ◌++◌, map, take,
  codes, same, ok, throws, Exception, subst, if◌then◌else◌, Bool-cases,
}
use svitock.Base.Dict.{Dict, lookup}
use svitock.Extern.Postgres.{
  PostgresLib, IsPostgres, Value, Table, message_table, columns_of, text, size, new_row, where_text,
  row_time, IsDescending, GivesAll,
}
use svitock.Extern.Uuid.{UuidLib, IsUuid}
use svitock.Domain.{Message}
use svitock.Postgres.{Store}
use svitock.Postgres.Rows.{insert_into_messages, select_messages, perm-map}
use svitock.Postgres.Calls.{insertion_call_lem, search_call_lem, search_call-Fails, Fails}
use svitock.Postgres.Messages.{create, read_message, read_messages, get_by_chat}

take-map :
    {A : Type 0} {B : Type 0} (f : A → B) (n : ℕ) (xs : List A)
    → take n (map f xs) ≡ map f (take n xs)
take-map f zero xs = refl
take-map f (suc n) [] = refl
take-map f (suc n) (x ∷ xs) = ap (◌∷◌ (f x)) (take-map f n xs)

module _ (lib : PostgresLib) (uuid : UuidLib) where
  open uuid use {Uuid, to_string}

  -- The statement of `getByChat`.
  abbrev pub statement : List ℕ
  statement =
      codes
        "SELECT id, chat_id, sender_id, content FROM messages WHERE chat_id = $1 ORDER BY created_at DESC LIMIT $2"

  abbrev message_values : Message Uuid → List Value
  message_values m =
      text (to_string m.id)
      ∷ text (to_string m.chat_id)
      ∷ text (to_string m.sender_id)
      ∷ text m.content
      ∷ []

  -- The row of a message whose time is that of the server.
  abbrev pub message_row : Message Uuid → Dict Value
  message_row m = new_row (columns_of message_table) (message_values m) m.created_at

  -- The table of messages holds these, in the order of their insertion.
  abbrev pub Holds : Store lib → List (Message Uuid) → Type 0
  Holds s ms = lib.rows s.server message_table ≡ map message_row ms

  abbrev pub of_chat : Uuid → List (Message Uuid) → List (Message Uuid)
  of_chat c [] = []
  of_chat c (m ∷ ms) =
      let rest = of_chat c ms in if same (to_string m.chat_id) (to_string c) then m ∷ rest else rest

  abbrev pub IsNewestFirst : List (Message Uuid) → Type 0
  IsNewestFirst ms = IsDescending (map (λ m. m.created_at) ms)

  -- The messages with the times at which they were read.
  abbrev pub read_at : (ℕ → ℕ) → ℕ → List (Message Uuid) → List (Message Uuid)
  read_at clock i [] = []
  read_at clock i (m ∷ ms) = record m { created_at = clock i } ∷ read_at clock (suc i) ms

  where_text-map :
      (c : Uuid) (ms : List (Message Uuid))
      → where_text (codes "chat_id") (to_string c) (map message_row ms)
        ≡ map message_row (of_chat c ms)
  unfolding lookup same
  where_text-map c [] = refl
  where_text-map c (m ∷ ms) = elim (Bool-cases (same (to_string m.chat_id) (to_string c))) [
    | inl here ↦ rw (here, where_text-map c ms) refl
    | inr other ↦ rw (other, where_text-map c ms) refl
  ]

  row_time-map :
      (ms : List (Message Uuid)) → map row_time (map message_row ms) ≡ map (λ m. m.created_at) ms
  unfolding lookup same
  row_time-map [] = refl
  row_time-map (m ∷ ms) = ap (◌∷◌ m.created_at) (row_time-map ms)

  -- What the laws give of a result is enough to read every row of it.
  read_messages_lem :
      (clock : ℕ → ℕ) (i : ℕ) (ms : List (Message Uuid)) (result : List lib.Row)
      → IsUuid uuid
      → GivesAll lib (columns_of message_table) (map message_row ms) result
      → read_messages lib uuid clock i result ≡ ok (read_at clock i ms)
  unfolding read_messages read_message lookup same
  read_messages_lem clock i [] [] ids gives = refl
  read_messages_lem clock i [] (r ∷ rs) ids gives = absurd gives
  read_messages_lem clock i (m ∷ ms) [] ids gives = absurd gives
  read_messages_lem clock i (m ∷ ms) (r ∷ rs) ids ((id, (chat, (sender, (content, end)))), gives) =
      rw
        (
          id,
          chat,
          sender,
          content,
          ids.string_generator-to_string m.id,
          ids.string_generator-to_string m.chat_id,
          ids.string_generator-to_string m.sender_id,
          read_messages_lem clock (suc i) ms rs ids gives,
        )
        refl

  -- What a search over a table with these messages gives.
  abbrev pub Shows : List (Message Uuid) → (ℕ → ℕ) → Uuid → ℕ → List (Message Uuid) → Type 0
  Shows ms clock c limit found =
      (all : List (Message Uuid)) × Permᴰ all (of_chat c ms)
      × IsNewestFirst all
      × (found ≡ read_at clock 0 (take limit all))

  module _ (postgres : IsPostgres lib) where
    -- Over a table that holds these messages, a creation that returns reports success and has added
    -- the message, with a time of the server in place of its own.
    pub create-Holds :
        (s s' : Store lib) (ms : List (Message Uuid)) (m : Message Uuid) (stored : Bool)
        → Holds s ms
        → create lib uuid s m ≡ ok (s', stored)
        → (stored ≡ true) × ((now : ℕ) × Holds s' (ms ++ record m { created_at = now } ∷ []))
    unfolding create same
    create-Holds s s' ms m stored holds h =
        let (success, (now, added)) =
          insertion_call_lem postgres s s' stored message_table (message_values m) refl
            (rw insert_into_messages h) in
        (
          success,
          (
            now,
            added message_table
                ∙ (ap (◌++ message_row (record m { created_at = now }) ∷ []) holds
                    ∙ sym (map-append message_row ms (record m { created_at = now } ∷ []))),
          ),
        )

    -- The result of the statement is that of messages of the chat, the newest first.
    result_lem :
        (s : Store lib) (ms : List (Message Uuid)) (c : Uuid) (limit : ℕ) (w w' : lib.Work)
        (result : List lib.Row)
        → Holds s ms
        → ((t : Table) → lib.seen w t ≡ lib.rows s.server t)
        → lib.exec_params w statement (text (to_string c) ∷ size limit ∷ []) ≡ ok (w', result)
        → (all : List (Message Uuid)) × Permᴰ all (of_chat c ms)
          × IsNewestFirst all
          × GivesAll lib (columns_of message_table) (map message_row (take limit all)) result
    result_lem s ms c limit w w' result holds sees executed =
        let (order, permuted, newest, gives) =
          postgres.recent_search w w' message_table (to_string c) limit result
            (rw select_messages executed) in
        let held = sees message_table ∙ holds in
        let (all, rows, permuted') =
          perm-map message_row (of_chat c ms) permuted
            (ap (where_text (codes "chat_id") (to_string c)) held ∙ where_text-map c ms) in
        (
          all,
          permuted',
          subst IsDescending (ap (map row_time) rows ∙ row_time-map all) newest,
          subst (λ stored. GivesAll lib (columns_of message_table) stored result)
              (ap (take limit) rows ∙ take-map message_row limit all) gives,
        )

    pub get_by_chat-Shows :
        (clock : ℕ → ℕ) (s s' : Store lib) (ms : List (Message Uuid)) (c : Uuid) (limit : ℕ)
        (found : List (Message Uuid))
        → IsUuid uuid
        → Holds s ms
        → get_by_chat lib uuid clock s c limit ≡ ok (s', found)
        → Holds s' ms × Shows ms clock c limit found
    unfolding get_by_chat
    get_by_chat-Shows clock s s' ms c limit found ids holds h =
        let (w, w', result, sees, executed, reads, kept) =
          search_call_lem postgres s s' _ (text (to_string c) ∷ size limit ∷ [])
            (read_messages lib uuid clock 0) found (message_table, inr (inr (sym select_messages)))
            h in
        let (all, permuted, newest, gives) =
          result_lem s ms c limit w w' result holds sees executed in
        let read = read_messages_lem clock 0 (take limit all) result ids gives in
        (kept message_table ∙ holds, (all, permuted, newest, cc))

    -- Over a table that holds these messages, a search that does not return has failed in taking a
    -- connection from the pool, in starting the transaction on the one that it took, or in its
    -- statement in that transaction, with the same exception: the rows that the statement gives can
    -- all be read.
    pub get_by_chat-Fails :
        (clock : ℕ → ℕ) (s : Store lib) (ms : List (Message Uuid)) (c : Uuid) (limit : ℕ)
        (x : Exception)
        → IsUuid uuid
        → Holds s ms
        → get_by_chat lib uuid clock s c limit ≡ throws x
        → Fails postgres s statement (text (to_string c) ∷ size limit ∷ []) x
    unfolding get_by_chat
    get_by_chat-Fails clock s ms c limit x ids holds h =
        search_call-Fails postgres s statement (text (to_string c) ∷ size limit ∷ [])
          (read_messages lib uuid clock 0) x
          (λ w w' result sees executed.
            let (all, permuted, newest, gives) =
              result_lem s ms c limit w w' result holds sees executed in
            (_, read_messages_lem clock 0 (take limit all) result ids gives))
          h
