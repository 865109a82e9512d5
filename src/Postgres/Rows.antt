-- ===== src/Postgres/Rows.antt =====
-- What the statements of the repositories do to the tables.
use mathlib.Core.List.{Permᴰ}
use svitock.Base.{
  ◌≡◌, refl, ap, ◌∙◌, true, List, [], ◌∷◌, ◌++◌, map, Bytes, codes, same, Bool-cases, inl, inr,
}
use svitock.Base.Dict.{Dict, lookup}
use svitock.Extern.Postgres.{
  Value, message_table, chat_table, user_table, insert_into, select_where, select_recent,
  where_text, holds_text,
}

pub insert_into_messages :
    insert_into message_table
    ≡ codes
        "INSERT INTO messages (id, chat_id, sender_id, content, created_at) VALUES ($1, $2, $3, $4, NOW())"
unfolding insert_into
insert_into_messages = refl

pub select_messages :
    select_recent message_table
    ≡ codes
        "SELECT id, chat_id, sender_id, content FROM messages WHERE chat_id = $1 ORDER BY created_at DESC LIMIT $2"
unfolding select_recent
select_messages = refl

pub insert_into_users :
    insert_into user_table
    ≡ codes "INSERT INTO users (id, username, password_hash, created_at) VALUES ($1, $2, $3, NOW())"
unfolding insert_into
insert_into_users = refl

pub select_users :
    select_where user_table
    ≡ codes "SELECT id, username, password_hash FROM users WHERE username = $1"
unfolding select_where
select_users = refl

pub insert_into_chats :
    insert_into chat_table ≡ codes "INSERT INTO chats (id, type, created_at) VALUES ($1, $2, NOW())"
unfolding insert_into
insert_into_chats = refl

pub select_chats : select_where chat_table ≡ codes "SELECT id, type FROM chats WHERE id = $1"
unfolding select_where
select_chats = refl

-- A permutation of the images is the image of a permutation.
pub perm-map :
    {A : Type 0} {B : Type 0} (f : A → B) {l l' : List B} (xs : List A)
    → Permᴰ l l'
    → l' ≡ map f xs
    → (ys : List A) × (l ≡ map f ys) × Permᴰ ys xs
perm-map f [] Permᴰ.nil h = ([], refl, Permᴰ.nil)
perm-map f (x ∷ xs) Permᴰ.nil h = cc
perm-map f [] (Permᴰ.cons e p) h = cc
perm-map f (x ∷ xs) (Permᴰ.cons e p) h =
    let (ys, same, permuted) = perm-map f xs p cc in (x ∷ ys, cc, Permᴰ.cons refl permuted)
perm-map f [] (Permᴰ.swap e e') h = cc
perm-map f (x ∷ []) (Permᴰ.swap e e') h = cc
perm-map f (x ∷ y ∷ xs) (Permᴰ.swap e e') h = (y ∷ x ∷ xs, cc, Permᴰ.swap refl refl)
perm-map f xs (Permᴰ.trans p q) h =
    let (ys, same, permuted) = perm-map f xs q h in
    let (zs, same', permuted') = perm-map f ys p same in (zs, same', Permᴰ.trans permuted' permuted)

-- Of one row there is one order.
pub perm_of_nil : {A : Type 0} {l l' : List A} → Permᴰ l l' → l' ≡ [] → l ≡ []
perm_of_nil Permᴰ.nil h = refl
perm_of_nil (Permᴰ.cons e p) h = cc
perm_of_nil (Permᴰ.swap e e') h = cc
perm_of_nil (Permᴰ.trans p q) h = perm_of_nil p (perm_of_nil q h)

pub perm_of_one : {A : Type 0} (a : A) {l l' : List A} → Permᴰ l l' → l' ≡ a ∷ [] → l ≡ a ∷ []
perm_of_one a Permᴰ.nil h = h
perm_of_one a (Permᴰ.cons e p) h = let rest = perm_of_nil p cc in cc
perm_of_one a (Permᴰ.swap e e') h = cc
perm_of_one a (Permᴰ.trans p q) h = perm_of_one a p (perm_of_one a q h)

where_text-append :
    (key t : Bytes) (xs ys : List (Dict Value))
    → where_text key t (xs ++ ys) ≡ where_text key t xs ++ where_text key t ys
where_text-append key t [] ys = refl
where_text-append key t (x ∷ xs) ys = elim (Bool-cases (holds_text t (lookup key x))) [
  | inl here ↦ rw (here, where_text-append key t xs ys) refl
  | inr other ↦ rw (other, where_text-append key t xs ys) refl
]

-- Where no row matched, a search after the insertion of a row that matches gives this row.
pub one_match :
    (key t : Bytes) (row : Dict Value) (before after : List (Dict Value))
    → after ≡ before ++ row ∷ []
    → holds_text t (lookup key row) ≡ true
    → where_text key t before ≡ []
    → where_text key t after ≡ row ∷ []
one_match key t row before after added matches free =
    ap (where_text key t) added
    ∙ (where_text-append key t before (row ∷ []) ∙ rw (free, matches) refl)
