-- ===== src/Runtime/Letters/Storing.antt =====
-- What the storage actor makes of a letter in the repository.
use mathlib.Core.List.{Sublistᴰ}
use mathlib.Core.List.Sublistᴰ
use svitock.Base.{
  ◌≡◌, refl, sym, ap, ◌∙◌, Bool, true, false, List, [], ◌∷◌, ◌++◌, append-nil, ok, >>=-eq-ok, subst,
}
use svitock.Extern.Uuid.{UuidLib}
use svitock.Domain.{Message}
use svitock.Application.Ports.{KeepsMessages, SameMessage}
use svitock.Actor.Payload.{StoragePersistMessage}
use svitock.Runtime.{Platform, Stamp, World, store_message}

-- The message holds what is asked, its identifiers parsed.
abbrev pub IsWritten : (uuid : UuidLib) → StoragePersistMessage → Message uuid.Uuid → Type 0
IsWritten uuid l m =
    (uuid.string_generator l.chat_id ≡ ok m.chat_id)
    × (uuid.string_generator l.sender_id ≡ ok m.sender_id)
    × (l.content ≡ m.content)

-- Each of the messages holds what was asked at its place.
abbrev pub AllWritten :
    (uuid : UuidLib) → List StoragePersistMessage → List (Message uuid.Uuid) → Type 0
AllWritten uuid [] [] = Unit
AllWritten uuid [] (m ∷ ms) = ⊥
AllWritten uuid (l ∷ ls) [] = ⊥
AllWritten uuid (l ∷ ls) (m ∷ ms) = IsWritten uuid l m × AllWritten uuid ls ms

pub AllWritten-append :
    (uuid : UuidLib) (ls ls' : List StoragePersistMessage) (ms ms' : List (Message uuid.Uuid))
    → AllWritten uuid ls ms
    → AllWritten uuid ls' ms'
    → AllWritten uuid (ls ++ ls') (ms ++ ms')
AllWritten-append uuid [] ls' [] ms' h k = k
AllWritten-append uuid [] ls' (m ∷ ms) ms' h k = absurd h
AllWritten-append uuid (l ∷ ls) ls' [] ms' h k = absurd h
AllWritten-append uuid (l ∷ ls) ls' (m ∷ ms) ms' (p, h) k =
    (p, AllWritten-append uuid ls ls' ms ms' h k)

module _ (p : Platform) (keeps : KeepsMessages p.messages) where
  -- Messages that hold these letters are added to those that the repository holds.
  abbrev pub Stores : p.messages.State → List StoragePersistMessage → p.messages.State → Type 0
  Stores s x s' =
      (ms : List (Message p.uuid.Uuid))
      → keeps.Holds s ms
      → (ms' : List (Message p.uuid.Uuid)) × AllWritten p.uuid x ms' × keeps.Holds s' (ms ++ ms')

  pub nothing-Stores : (s s' : p.messages.State) → s ≡ s' → Stores s [] s'
  nothing-Stores s s' same ms holds =
      ([], tt, subst (λ s'. keeps.Holds s' (ms ++ [])) same (rw (append-nil ms) holds))

  IsWritten-SameMessage :
      (l : StoragePersistMessage) (m m' : Message p.uuid.Uuid)
      → SameMessage m' m
      → IsWritten p.uuid l m
      → IsWritten p.uuid l m'
  IsWritten-SameMessage l m m' (id, chat_id, sender_id, content) (parsed, parsed', text) =
      (parsed ∙ ap ok (sym chat_id), parsed' ∙ ap ok (sym sender_id), text ∙ sym content)

  create-Stores :
      (s s' : p.messages.State) (l : StoragePersistMessage) (m : Message p.uuid.Uuid)
      (stored : Bool)
      → IsWritten p.uuid l m
      → p.messages.create s m ≡ ok (s', stored)
      → (x : List StoragePersistMessage) × Sublistᴰ x (l ∷ []) × Stores s x s'
  create-Stores s s' l m true written created = (
    l ∷ [],
    Sublistᴰ.refl (l ∷ []),
    λ ms holds.
        let (m', same, held) = keeps.create-Holds s s' ms m true holds created in
        (m' ∷ [], (IsWritten-SameMessage l m m' same written, tt), held),
  )
  create-Stores s s' l m false written created = (
    [],
    Sublistᴰ.nil-sublist (l ∷ []),
    λ ms holds.
        let (m', same, held) = keeps.create-Holds s s' ms m false holds created in
        ([], tt, rw (append-nil ms) held),
  )

  pub store_message-Stores :
      (stamp : Stamp p) (w w' : World p) (l : StoragePersistMessage)
      → store_message p stamp w l ≡ ok w'
      → (x : List StoragePersistMessage) × Sublistᴰ x (l ∷ []) × Stores w.stored x w'.stored
  unfolding store_message
  store_message-Stores stamp w w' l h =
      let (chat_id, parsed, h1) = >>=-eq-ok (p.uuid.string_generator l.chat_id) _ h in
      let (sender_id, parsed', h2) = >>=-eq-ok (p.uuid.string_generator l.sender_id) _ h1 in
      let ((s', stored), created, h3) = >>=-eq-ok (p.messages.create w.stored _) _ h2 in
      let same : s' ≡ w'.stored = cc in
      subst (λ s'. (x : List StoragePersistMessage) × Sublistᴰ x (l ∷ []) × Stores w.stored x s')
        same (create-Stores w.stored s' l _ stored (parsed, parsed', refl) created)
