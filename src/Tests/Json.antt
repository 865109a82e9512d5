-- ===== src/Tests/Json.antt =====
-- A small JSON library that keeps the laws: texts without escapes, numbers, arrays and objects.
use svitock.Base.{
  ℕ, zero, suc, ◌+◌, ◌*◌, ◌-◌, ◌≡◌, ◌∙◌, refl, ap, Bool, true, false, ◌&&◌, Option, none, some,
  List, [], ◌∷◌, ◌++◌, map, Bytes, codes, same, Outcome, ok, throws, type_error, parse_error, leb,
  ◌==◌, if◌then◌else◌, arith, find, take, drop,
}
use svitock.Base.Dict.{Dict, lookup}
use svitock.Base.Digits.{to_string}
use svitock.Extern.Json.{JsonLib, IsJson, fields, pair, or_default, member_text, member_at}

mutual
  pub data Value : Type 0 where
    null discarded : Value
    str : Bytes → Value
    num : ℕ → Value
    arr : Items → Value
    obj : Members → Value

  pub data Items : Type 0 where
    nil : Items
    cons : Value → Items → Items

  pub data Members : Type 0 where
    end : Members
    field : Bytes → Value → Members → Members

abbrev items : List Value → Items
items [] = nil
items (v ∷ vs) = cons v (items vs)

abbrev members : Dict Value → Members
members [] = end
members ((k, v) ∷ m) = field k v (members m)

-- The pair that an array of a text and a value is.
abbrev as_pair : Value → Option (Bytes × Value)
as_pair (arr (cons (str k) (cons v nil))) = some (k, v)
as_pair _ = none

abbrev add_pair : Option (Bytes × Value) → Option Members → Option Members
add_pair (some (k, v)) (some m) = some (field k v m)
add_pair _ _ = none

abbrev as_members : List Value → Option Members
as_members [] = some end
as_members (v ∷ vs) = add_pair (as_pair v) (as_members vs)

abbrev pack : Option Members → List Value → Value
pack none vs = arr (items vs)
pack (some m) vs = obj m

abbrev from_list : List Value → Value
from_list vs = pack (as_members vs) vs

abbrev find_member : Bytes → Members → Option Value
find_member k end = none
find_member k (field j v m) = if same j k then some v else find_member k m

abbrev member_of : Value → Bytes → Option Value
member_of (obj m) k = find_member k m
member_of _ k = none

abbrev is_obj : Value → Bool
is_obj (obj m) = true
is_obj _ = false

abbrev text_of : Value → Option Bytes
text_of (str s) = some s
text_of _ = none

abbrev value_text_of : Value → Bytes → Bytes → Outcome Bytes
value_text_of (obj m) k d = or_default (find_member k m) (ok d) (λ v. member_text (text_of v))
value_text_of _ k d = throws type_error

abbrev value_of : Value → Bytes → Value → Outcome Value
value_of (obj m) k d = or_default (find_member k m) (ok d) (λ v. ok v)
value_of _ k d = throws type_error

abbrev at_of : Value → Bytes → Outcome Value
at_of (obj m) k = member_at (find_member k m)
at_of _ k = throws type_error

unfoldable mutual
  pub write : Value → Bytes
  write null = codes "null"
  write discarded = codes "<discarded>"
  write (str s) = b'"' ∷ (s ++ b'"' ∷ [])
  write (num n) = to_string n
  write (arr xs) = b'[' ∷ (write_items xs ++ b']' ∷ [])
  write (obj m) = b'{' ∷ (write_members m ++ b'}' ∷ [])

  pub write_items : Items → Bytes
  write_items nil = []
  write_items (cons v nil) = write v
  write_items (cons v (cons w xs)) = write v ++ b',' ∷ write_items (cons w xs)

  pub write_members : Members → Bytes
  write_members end = []
  write_members (field k v end) = b'"' ∷ (k ++ b'"' ∷ b':' ∷ write v)
  write_members (field k v (field j w m)) =
      b'"' ∷ (k ++ b'"' ∷ b':' ∷ (write v ++ b',' ∷ write_members (field j w m)))

abbrev bind {ℓ κ} : {A : Type ℓ} {B : Type κ} → Option A → (A → Option B) → Option B
bind none f = none
bind (some a) f = f a

-- The text up to the next quote, and what follows it.
abbrev quoted : Bytes → Option (Bytes × Bytes)
quoted s = elim (find b'"' s) [ none ↦ none | some i ↦ some (take i s, drop (i + 1) s) ]

abbrev is_digit : ℕ → Bool
is_digit c = leb b'0' c && leb c b'9'

read_number : ℕ → Bytes → Value × Bytes
read_number n [] = (num n, [])
read_number n (c ∷ s) =
    let rest = read_number (n * 10 + (c - b'0')) s in if is_digit c then rest else (num n, c ∷ s)

abbrev expect : ℕ → Bytes → Option Bytes
expect c [] = none
expect c (b ∷ s) = if b == c then some s else none

-- The members after a brace or a comma, by the function that reads a value.
read_members : (Bytes → Option (Value × Bytes)) → ℕ → Bytes → Option (Members × Bytes)
read_members read zero s = none
read_members read (suc fuel) s =
    let empty = expect b'}' s in
    let full = bind (expect b'"' s) λ s1. bind (quoted s1) λ (k, s2). bind (expect b':' s2) λ s3.
      bind (read s3) λ (v, s4). elim (expect b',' s4) [
        | some s5 ↦ bind (read_members read fuel s5) λ (m, s6). some (field k v m, s6)
        | none ↦ bind (expect b'}' s4) λ s5. some (field k v end, s5)
      ] in
    elim empty [ some s1 ↦ some (end, s1) | none ↦ full ]

read_value : ℕ → Bytes → Option (Value × Bytes)
unfolding read_members read_number
read_value zero s = none
read_value (suc fuel) [] = none
read_value (suc fuel) (c ∷ s) =
    let text = bind (quoted s) (λ (t, r). some (str t, r)) in
    let object = bind (read_members (read_value fuel) fuel s) (λ (m, r). some (obj m, r)) in
    if c == b'"'
    then text
    else (if c == b'{' then object else (if is_digit c then some (read_number 0 (c ∷ s)) else none))

abbrev whole : Option (Value × Bytes) → Outcome Value
whole (some (v, [])) = ok v
whole _ = throws parse_error

-- Nine levels are enough for the examples.
unfoldable pub read_json : Bytes → Outcome Value
unfolding read_value
read_json s = whole (read_value 9 s)

abbrev pub small_json : JsonLib
small_json = record {
  Json = Value;
  parse = read_json;
  discarded = discarded;
  is_object = is_obj;
  value_text = value_text_of;
  value = value_of;
  at_key = at_of;
  get_text = λ v. member_text (text_of v);
  text = str;
  number = num;
  list = from_list;
  object = obj end;
  array = λ vs. arr (items vs);
  dump = λ v. ok (write v);
  dump_replace = write;
  member = member_of;
  read_text = text_of;
}

as_members-pairs : (kvs : Dict Value) → as_members (map (pair small_json) kvs) ≡ some (members kvs)
as_members-pairs [] = refl
as_members-pairs ((k, v) ∷ kvs) = rw (as_members-pairs kvs)

find_member-members : (kvs : Dict Value) (k : Bytes) → find_member k (members kvs) ≡ lookup k kvs
unfolding lookup
find_member-members [] k = refl
find_member-members ((j, v) ∷ kvs) k = ground (arith, find_member-members kvs k)

fields-obj : (kvs : Dict Value) → fields small_json kvs ≡ obj (members kvs)
fields-obj kvs = ap (λ o. pack o (map (pair small_json) kvs)) (as_members-pairs kvs)

value_text-small :
    (j : Value) (k d : Bytes)
    → is_obj j ≡ true
    → value_text_of j k d ≡ or_default (member_of j k) (ok d) (λ v. member_text (text_of v))
value_text-small (obj m) k d h = refl
value_text-small _ k d h = cc

value-small :
    (j : Value) (k : Bytes) (d : Value)
    → is_obj j ≡ true
    → value_of j k d ≡ or_default (member_of j k) (ok d) (λ v. ok v)
value-small (obj m) k d h = refl
value-small _ k d h = cc

value_text-other_small :
    (j : Value) (k d : Bytes) → is_obj j ≡ false → value_text_of j k d ≡ throws type_error
value_text-other_small (obj m) k d h = cc
value_text-other_small _ k d h = refl

value-other_small :
    (j : Value) (k : Bytes) (d : Value) → is_obj j ≡ false → value_of j k d ≡ throws type_error
value-other_small (obj m) k d h = cc
value-other_small _ k d h = refl

at-small : (j : Value) (k : Bytes) → is_obj j ≡ true → at_of j k ≡ member_at (member_of j k)
at-small (obj m) k h = refl
at-small _ k h = cc

at-other_small : (j : Value) (k : Bytes) → is_obj j ≡ false → at_of j k ≡ throws type_error
at-other_small (obj m) k h = cc
at-other_small _ k h = refl

pub small_json-IsJson : IsJson small_json
small_json-IsJson = record {
  is_object-discarded = refl;
  is_object-fields = λ kv kvs. ap is_obj (fields-obj (kv ∷ kvs));
  member-fields = λ kv kvs k.
      ap (λ v. member_of v k) (fields-obj (kv ∷ kvs)) ∙ find_member-members (kv ∷ kvs) k;
  read_text-text = λ t. refl;
  value_text-object = value_text-small;
  value_text-other = value_text-other_small;
  value-object = value-small;
  value-other = value-other_small;
  at_key-object = at-small;
  at_key-other = at-other_small;
  get_text_lem = λ j. refl;
}

read_nested :
    read_json (codes "{\"type\":\"typing\",\"n\":12,\"o\":{\"a\":\"b\"}}")
    ≡ ok (
        obj (
          field (codes "type") (str (codes "typing")) (
            field
              (codes "n")
              (num 12)
              (field (codes "o") (obj (field (codes "a") (str (codes "b")) end)) end))))
unfolding read_json find same
read_nested = refl
