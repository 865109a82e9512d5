-- ===== src/Postgres/Messages/Sent.antt =====
-- Sending and reading together: `SendMessageUseCase` and `GetChatHistoryUseCase` over PostgreSQL.
use mathlib.Core.List.{map-append}
use svitock.Base.{
  ℕ, suc, ◌≡◌, refl, sym, ap, ◌∙◌, inl, inr, Bool, false, List, [], ◌∷◌, ◌++◌, map, Bytes, not,
  is_empty, Outcome, ok, ◌>>=◌, >>=-eq-ok, Bool-cases, append-nil, append_assoc, if◌then◌else◌,
}
use svitock.Extern.Postgres.{PostgresLib, IsPostgres}
use svitock.Extern.Uuid.{UuidLib, IsUuid}
use svitock.Domain.{Message}
use svitock.Application
use svitock.Postgres.{Store}
use svitock.Postgres.Messages.{postgres_messages}
use svitock.Postgres.Messages.History.{Holds, Shows, create-Holds, get_by_chat-Shows}

module _ (lib : PostgresLib) (uuid : UuidLib) where
  open uuid use {Uuid}

  -- A message to send: its identifier, and what `execute` gets.
  pub record Draft : Type 0 where
    pub id : Uuid
    pub chat_id : Uuid
    pub sender_id : Uuid
    pub content : Bytes

  -- The message of a draft with a time.
  abbrev message_of : Draft → ℕ → Message Uuid
  message_of d now = record {
    id = d.id;
    chat_id = d.chat_id;
    sender_id = d.sender_id;
    content = d.content;
    created_at = now;
  }

  -- A message without its time.
  abbrev pub draft_of : Message Uuid → Draft
  draft_of m = record {
    id = m.id;
    chat_id = m.chat_id;
    sender_id = m.sender_id;
    content = m.content;
  }

  -- The drafts that have a content.
  abbrev pub accepted : List Draft → List Draft
  accepted [] = []
  accepted (d ∷ ds) = let rest = accepted ds in if is_empty d.content then rest else d ∷ rest

  -- `SendMessageUseCase::execute` for one draft after the other, at times.
  abbrev pub send_all :
      (ℕ → ℕ) → (ℕ → ℕ) → ℕ → Store lib → List Draft → Outcome (Store lib × List Bool)
  send_all clock times i s [] = ok (s, [])
  send_all clock times i s (d ∷ ds) = do
    sent ←
        Application.send_message (postgres_messages lib uuid clock) s d.id (times i) d.chat_id
          d.sender_id d.content
    rest ← send_all clock times (suc i) sent.0 ds
    ok (rest.0, sent.1 ∷ rest.1)

  accepted-cons :
      (d : Draft) (ds : List Draft) → accepted (d ∷ ds) ≡ accepted (d ∷ []) ++ accepted ds
  accepted-cons d ds = elim (Bool-cases (is_empty d.content)) [
    | inl empty ↦ rw empty refl
    | inr full ↦ rw full refl
  ]

  kept :
      (s s' : Store lib) (ms ms' : List (Message Uuid))
      → Holds lib uuid s ms
      → s ≡ s'
      → ms ≡ ms'
      → Holds lib uuid s' ms'
  kept s s' ms ms' holds same same' = rw (← same, ← same') holds

  module _ (postgres : IsPostgres lib) where
    send_message-Holds :
        (clock : ℕ → ℕ) (s s' : Store lib) (ms : List (Message Uuid)) (d : Draft) (now : ℕ)
        (sent : Bool)
        → Holds lib uuid s ms
        → Application.send_message
            (postgres_messages lib uuid clock)
            s
            d.id
            now
            d.chat_id
            d.sender_id
            d.content
          ≡ ok (s', sent)
        → (sent ≡ not (is_empty d.content))
          × ((added : List (Message Uuid)) × (map draft_of added ≡ accepted (d ∷ []))
              × Holds lib uuid s' (ms ++ added))
    unfolding Application.send_message
    send_message-Holds clock s s' ms d now sent holds h = elim (Bool-cases (is_empty d.content)) [
      | inl empty ↦
          let same : s ≡ s' = cc (rw empty at h) in
          let unsent : sent ≡ false = cc (rw empty at h) in
          (
            rw empty unsent,
            ([], rw empty refl, kept s s' ms (ms ++ []) holds same (sym (append-nil ms))),
          )
      | inr full ↦
          let (success, (time, holds')) =
            create-Holds lib uuid postgres s s' ms (message_of d now) sent holds (rw full at h) in
          (
            rw full success,
            (record (message_of d now) { created_at = time } ∷ [], rw full refl, holds'),
          )
    ]

    send_all-Holds :
        (clock times : ℕ → ℕ) (i : ℕ) (s s' : Store lib) (ms : List (Message Uuid))
        (drafts : List Draft) (results : List Bool)
        → Holds lib uuid s ms
        → send_all clock times i s drafts ≡ ok (s', results)
        → (results ≡ map (λ d. not (is_empty d.content)) drafts)
          × ((added : List (Message Uuid)) × (map draft_of added ≡ accepted drafts)
              × Holds lib uuid s' (ms ++ added))
    send_all-Holds clock times i s s' ms [] results holds h =
        let same : s ≡ s' = cc in
        (cc, ([], refl, kept s s' ms (ms ++ []) holds same (sym (append-nil ms))))
    send_all-Holds clock times i s s' ms (d ∷ ds) results holds h =
        let ((s1, sent), sends, h1) =
          >>=-eq-ok
            (Application.send_message (postgres_messages lib uuid clock) s d.id (times i) d.chat_id
              d.sender_id d.content)
            _ h in
        let ((s2, more), rests, h2) = >>=-eq-ok (send_all clock times (suc i) s1 ds) _ h1 in
        let (r1, (new, are_new, holds1)) =
          send_message-Holds clock s s1 ms d (times i) sent holds sends in
        let (r2, (rest, are_rest, holds2)) =
          send_all-Holds clock times (suc i) s1 s2 (ms ++ new) ds more holds1 rests in
        let same : s2 ≡ s' = cc in
        let listed : results ≡ sent ∷ more = cc in
        (
          listed ∙ (ap (◌∷ more) r1 ∙ ap (not (is_empty d.content) ∷◌) r2),
          (
            new ++ rest,
            rw (map-append draft_of new rest, are_new, are_rest) (sym (accepted-cons d ds)),
            kept s2 s' (ms ++ new ++ rest) (ms ++ (new ++ rest)) holds2 same
                (append_assoc ms new rest),
          ),
        )

    -- Over a pool whose database holds some messages, with a server that keeps to its documentation:
    -- when drafts were sent one after the other and the history of a chat was then read, and all
    -- calls returned, each send has reported success exactly if its content was not empty. There are
    -- messages, those of the accepted drafts in their order, with times of the server, such that the
    -- history is a newest-first order of the chat's messages among the old and these, cut off at the
    -- limit, each with the time at which it was read in place of its own. The database then holds the
    -- old messages and these.
    pub get_chat_history-send_all :
        (clock times : ℕ → ℕ) (s s' s'' : Store lib) (ms : List (Message Uuid))
        (drafts : List Draft) (results : List Bool) (c : Uuid) (limit : ℕ)
        (found : List (Message Uuid))
        → IsUuid uuid
        → Holds lib uuid s ms
        → send_all clock times 0 s drafts ≡ ok (s', results)
        → Application.get_chat_history (postgres_messages lib uuid clock) s' c limit
          ≡ ok (s'', found)
        → (results ≡ map (λ d. not (is_empty d.content)) drafts)
          × ((added : List (Message Uuid)) × (map draft_of added ≡ accepted drafts)
              × Holds lib uuid s'' (ms ++ added)
              × Shows lib uuid (ms ++ added) clock c limit found)
    unfolding Application.get_chat_history
    get_chat_history-send_all clock times s s' s'' ms drafts results c limit found ids holds sends
          reads =
        let (all_sent, (added, are_accepted, holds')) =
          send_all-Holds clock times 0 s s' ms drafts results holds sends in
        let (holds'', shows) =
          get_by_chat-Shows lib uuid postgres clock s' s'' (ms ++ added) c limit found ids holds'
            reads in
        (all_sent, (added, are_accepted, holds'', shows))
