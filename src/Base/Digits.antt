-- ===== src/Base/Digits.antt =====
-- Numbers written out in a base, as `std::to_string` and `std::hex` do.
use Prim.Native.Nat.{ℕ, zero, suc, ◌+◌, ◌-◌, ◌*◌, ◌/◌, ◌%◌, ◌≤◌, ◌<◌}
use mathlib.Core.Path.{◌≡◌, refl, sym, ap, ◌∙◌}
use mathlib.Core.Logic.{inl, inr, ◌≢◌}
use mathlib.Core.List.{List, [], ◌∷◌, map}
use native.Mathlib.Omega.{arith}
use native.Mathlib.Nat.{div-add-mod}
use svitock.Base.Tests.{◌==◌, ltb, if◌then◌else◌, Bool-cases}
use svitock.Base.Text.{Bytes, Avoids}

-- The digits of `n` in a base, most significant first, before `acc`; fuel for the rounds.
unfoldable pub digits : ℕ → ℕ → ℕ → List ℕ → List ℕ
digits base zero n acc = acc
digits base (suc fuel) n acc =
    let rest = digits base fuel (n / base) (n % base ∷ acc) in
    if n / base == 0 then n % base ∷ acc else rest

-- The number that digits stand for, after a number `n`.
unfoldable pub value : ℕ → ℕ → List ℕ → ℕ
value base n [] = n
value base n (d ∷ ds) = value base (n * base + d) ds

last_digit : (base n : ℕ) → 2 ≤ base → (n / base) * base + n % base ≡ n
last_digit base n h = grind (arith, div-add-mod)

div-lt : (base n : ℕ) → 2 ≤ base → n / base ≢ 0 → n / base < n
div-lt base n h k = grind (arith, last_digit base n h)

-- More fuel than the number is enough.
pub value-digits :
    (base fuel n : ℕ) (acc : List ℕ)
    → 2 ≤ base
    → n < fuel
    → value base 0 (digits base fuel n acc) ≡ value base n acc
unfolding digits value
value-digits base zero n acc h k = absurd (omega arith)
value-digits base (suc fuel) n acc h k = elim (Bool-cases (n / base == 0)) [
  | inl last ↦ rw last (ap (λ (m : ℕ). value base m acc) (grind (arith, last_digit base n h)))
  | inr more ↦ rw more (
      value-digits base fuel (n / base) (n % base ∷ acc) h (grind (arith, div-lt base n h))
      ∙ ap (λ (m : ℕ). value base m acc) (last_digit base n h))
]

-- `std::to_string` of an unsigned number.
abbrev decimal_digit : ℕ → ℕ
decimal_digit d = b'0' + d

unfoldable pub to_string : ℕ → Bytes
unfolding digits
to_string n = map decimal_digit (digits 10 (suc n) n [])

-- `stream << std::hex << value`, which pads nothing.
abbrev hex_digit : ℕ → ℕ
hex_digit d = if ltb d 10 then b'0' + d else 87 + d

unfoldable pub to_hex : ℕ → Bytes
unfolding digits
to_hex n = map hex_digit (digits 16 (suc n) n [])

map-decimal_digit_injective :
    (ds es : List ℕ) → map decimal_digit ds ≡ map decimal_digit es → ds ≡ es
map-decimal_digit_injective [] [] h = refl
map-decimal_digit_injective [] (e ∷ es) h = cc
map-decimal_digit_injective (d ∷ ds) [] h = cc
map-decimal_digit_injective (d ∷ ds) (e ∷ es) h = ground (arith, map-decimal_digit_injective ds es)

-- Two numbers with the same text are equal.
pub to_string_injective : (m n : ℕ) → to_string m ≡ to_string n → m ≡ n
unfolding to_string value
to_string_injective m n h =
    sym (value-digits 10 (suc m) m [] (omega arith) (omega arith))
    ∙ (ap (value 10 0) (map-decimal_digit_injective _ _ h)
        ∙ value-digits 10 (suc n) n [] (omega arith) (omega arith))

-- The number with these digits.
abbrev digit_value : ℕ → ℕ
digit_value c = c - b'0'

unfoldable pub of_string : Bytes → ℕ
unfolding value
of_string t = value 10 0 (map digit_value t)

map-digit_value : (ds : List ℕ) → map digit_value (map decimal_digit ds) ≡ ds
map-digit_value [] = refl
map-digit_value (d ∷ ds) = ground (arith, map-digit_value ds)

pub of_string-to_string : (n : ℕ) → of_string (to_string n) ≡ n
unfolding of_string to_string value
of_string-to_string n =
    ap (value 10 0) (map-digit_value (digits 10 (suc n) n []))
    ∙ value-digits 10 (suc n) n [] (omega arith) (omega arith)

map-hex_digit-Avoids : (ds : List ℕ) → Avoids b'.' (map hex_digit ds)
map-hex_digit-Avoids [] = tt
map-hex_digit-Avoids (d ∷ ds) = (ground arith, map-hex_digit-Avoids ds)

pub to_hex-Avoids : (n : ℕ) → Avoids b'.' (to_hex n)
unfolding to_hex
to_hex-Avoids n = map-hex_digit-Avoids (digits 16 (suc n) n [])
