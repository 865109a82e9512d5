-- ===== src/Http/History.antt =====
-- infrastructure/network/http/http_router, the history of a chat, over the repository of
-- infrastructure/repositories/postgres_message_repository.
use mathlib.Core.List.{Permᴰ}
use svitock.Base.{
  ℕ, suc, ◌+◌, ◌-◌, ◌%◌, ◌^◌, ◌<◌, ◌≡◌, refl, ◌⊎◌, inl, inr, [], ◌∷◌, ◌++◌, List, map, take, length,
  length-append, Bytes, codes, same, substr, substr-between, starts_with, ends_with-append, Outcome,
  Outcome-cases, ok, throws, ◌>>=◌, arith,
}
use svitock.Extern.Json.{JsonLib}
use svitock.Extern.Uuid.{UuidLib, IsUuid}
use svitock.Extern.Postgres.{PostgresLib, IsPostgres, text, size}
use svitock.Application.Ports.{MessageRepository}
use svitock.Domain.{Message}
use svitock.Http.{
  Request, Response, TokenService, Status, get, message_entry, reply, history, route,
}
use svitock.Postgres.{Store}
use svitock.Postgres.Calls.{Fails}
use svitock.Postgres.Messages.{postgres_messages, get_by_chat}
use svitock.Postgres.Messages.History.{
  Holds, of_chat, IsNewestFirst, read_at, statement, get_by_chat-Shows, get_by_chat-Fails,
}

-- The length of the text between six and nine bytes, as the source computes it.
middle_lem : (n : ℕ) → n < 2 ^ 64 → (n + 15 + 2 ^ 64 - 6 - 9) % 2 ^ 64 ≡ n
middle_lem n h = omega (arith, h)

abbrev pub target_of : Bytes → Bytes
target_of id = codes "/chat/" ++ (id ++ codes "/messages")

length-target_of : (id : Bytes) → length (target_of id) ≡ length id + 15
length-target_of id = omega (arith, length-append id (codes "/messages"))

target_of-middle :
    (id : Bytes)
    → length id < 2 ^ 64
    → substr (target_of id) 6 ((length (target_of id) + 2 ^ 64 - 6 - 9) % 2 ^ 64) ≡ ok id
target_of-middle id h =
    rw (length-target_of id, middle_lem (length id) h)
      (substr-between b'/' (codes "/chat") id (codes "/messages"))

module _ (json : JsonLib) (uuid : UuidLib) where
  open uuid use {Uuid, to_string}

  -- A request for the history of a chat.
  abbrev pub history_request : Uuid → Bytes → Bytes → Request
  history_request c body authorization = record {
    method = get;
    target = target_of (to_string c);
    body = body;
    authorization = authorization;
  }

  module _ (messages : MessageRepository Uuid) where
    route-history :
        (service : TokenService) (s : messages.State) (c : Uuid) (body authorization : Bytes)
        → IsUuid uuid
        → length (to_string c) < 2 ^ 64
        → route json uuid messages service s (history_request c body authorization) ≡ (do
          found ← messages.get_by_chat s c 50
          response ←
              reply json uuid messages Status.okay
                (json.array (map (message_entry json uuid messages) found.1))
          ok (found.0, response))
    unfolding route history starts_with same
    route-history service s c body authorization ids short =
        rw
          (
            ends_with-append (codes "/chat/" ++ to_string c) (codes "/messages"),
            target_of-middle (to_string c) short,
            ids.string_generator-to_string c,
          )
          refl

  module _ (lib : PostgresLib) (postgres : IsPostgres lib) (clock : ℕ → ℕ) where
    abbrev pub history_reply : List (Message Uuid) → Outcome Response
    history_reply ms =
        let messages = postgres_messages lib uuid clock in
        reply json uuid messages Status.okay
          (json.array (map (message_entry json uuid messages) ms))

    -- An entry has the identifier and the text, and not the time at which the message was read.
    message_entry-read_at :
        (i : ℕ) (ms : List (Message Uuid))
        → map
            (message_entry json uuid (postgres_messages lib uuid clock))
            (read_at lib uuid clock i ms)
          ≡ map (message_entry json uuid (postgres_messages lib uuid clock)) ms
    message_entry-read_at i [] = refl
    message_entry-read_at i (m ∷ ms) = rw (message_entry-read_at (suc i) ms) refl

    -- The chat's messages among these, in an order that has the newest first.
    abbrev pub NewestOf : List (Message Uuid) → Uuid → List (Message Uuid) → Type 0
    NewestOf ms c all = Permᴰ all (of_chat lib uuid c ms) × IsNewestFirst lib uuid all

    -- The answer to a request for the history of the chat over a table of these messages, or what
    -- has failed.
    abbrev pub Answers :
        Store lib → List (Message Uuid) → Uuid → Outcome (Store lib × Response) → Type 0
    Answers s ms c (ok (s', response)) =
        Holds lib uuid s' ms
        × ((all : List (Message Uuid)) × NewestOf ms c all
            × (history_reply (take 50 all) ≡ ok response))
    Answers s ms c (throws x) =
        Fails postgres s (statement lib uuid) (text (to_string c) ∷ size 50 ∷ []) x
        ⊎ ((all : List (Message Uuid)) × NewestOf ms c all
            × (history_reply (take 50 all) ≡ throws x))

    found-Answers :
        (s s' : Store lib) (ms : List (Message Uuid)) (c : Uuid) (all : List (Message Uuid))
        → Holds lib uuid s' ms
        → NewestOf ms c all
        → Answers s ms c (do response ← history_reply (take 50 all); ok (s', response))
    found-Answers s s' ms c all holds newest = elim (Outcome-cases (history_reply (take 50 all))) [
      | inl (response, replied) ↦ rw replied (holds, (all, newest, replied))
      | inr (x, failed) ↦ rw failed (inr (all, newest, failed))
    ]

    -- A GET of /chat/, the text of an identifier, shorter than 2 ^ 64 bytes, and /messages, over a
    -- pool with a server that keeps to its documentation and a table that holds some messages, where
    -- identifiers are read back from their texts: if it returns, the table is as it
    -- was, and the answer is ok with the identifiers and the texts of the first fifty of some
    -- newest-first order of the chat's messages; if it throws, either the pool, the start of the
    -- transaction or the statement has failed with that exception, or the writing of that answer
    -- has.
    pub route-Answers :
        (service : TokenService) (s : Store lib) (ms : List (Message Uuid)) (c : Uuid)
        (body authorization : Bytes)
        → IsUuid uuid
        → length (to_string c) < 2 ^ 64
        → Holds lib uuid s ms
        → Answers s ms c (
            route json uuid
              (postgres_messages lib uuid clock)
              service
              s
              (history_request c body authorization))
    route-Answers service s ms c body authorization ids short holds =
        rw
          (route-history (postgres_messages lib uuid clock) service s c body authorization ids
            short)
          (elim (Outcome-cases (get_by_chat lib uuid clock s c 50)) [
            | inr (x, failed) ↦
                rw failed
                  (inl (get_by_chat-Fails lib uuid postgres clock s ms c 50 x ids holds failed))
            | inl ((s', found), searched) ↦
                let (holds', (all, permuted, newest, shown)) =
                  get_by_chat-Shows lib uuid postgres clock s s' ms c 50 found ids holds searched in
                rw (searched, shown, message_entry-read_at 0 (take 50 all))
                  (found-Answers s s' ms c all holds' (permuted, newest))
          ])
