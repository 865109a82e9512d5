-- ===== src/Base/Text.antt =====
-- `std::string` is a list of bytes. Literals are written as native text and read by `codes`.
use Prim.Native.Nat.{ℕ, zero, suc, ◌+◌, ◌-◌, ◌<◌}
use Prim.Native.Char.{code}
use Prim.Native.String.{String}
use mathlib.Core.Path.{◌≡◌, refl, ap}
use mathlib.Core.Logic.{◌↔◌, ◌≢◌}
use mathlib.Core.Bool.{Bool, true, false, ◌&&◌}
use mathlib.Core.Option
use mathlib.Core.Option.{Option, none, some}
use mathlib.Core.List.{List, [], ◌∷◌, ◌++◌, append_assoc}
use native.Mathlib.Omega.{arith}
use native.Mathlib.Numerals.{add-one}
use svitock.Base.Tests.{◌==◌, ltb, leb, if◌then◌else◌}
use svitock.Base.Lists.{length, take, drop, All, take-append, drop-append, length-append}
use svitock.Base.Exceptions.{Outcome, ok, throws, out_of_range}

abbrev pub Bytes : Type 0
Bytes = List ℕ

-- The code points of a literal: its bytes, as it is ASCII.
abbrev pub codes : String → Bytes
codes String.[] = []
codes (String.◌∷◌ c s) = code c ∷ codes s

-- `operator==` of two strings.
unfoldable pub same : Bytes → Bytes → Bool
same [] [] = true
same [] (b ∷ t) = false
same (a ∷ s) [] = false
same (a ∷ s) (b ∷ t) = a == b && same s t

pub same_refl : (s : Bytes) → same s s ≡ true
unfolding same
same_refl [] = refl
same_refl (a ∷ s) = ground (arith, same_refl s)

pub eq_of_same : (s t : Bytes) → same s t ≡ true → s ≡ t
unfolding same
eq_of_same [] [] h = refl
eq_of_same [] (b ∷ t) h = cc
eq_of_same (a ∷ s) [] h = cc
eq_of_same (a ∷ s) (b ∷ t) h = ground (arith, eq_of_same s t)

pub same_iff : (s t : Bytes) → (same s t ≡ true) ↔ (s ≡ t)
same_iff s t = (eq_of_same s t, λ e. rw e (same_refl t))

-- `find(char)`: the first position of a byte, `none` for `npos`.
unfoldable pub find : ℕ → Bytes → Option ℕ
find c [] = none
find c (b ∷ s) = if b == c then some 0 else Option.map suc (find c s)

-- `rfind(char)`: the last position.
unfoldable pub rfind : ℕ → Bytes → Option ℕ
rfind c [] = none
rfind c (b ∷ s) = elim (rfind c s) [
  | some i ↦ some (suc i)
  | none ↦ if b == c then some 0 else none
]

-- `substr(pos, count)` throws past the end, and stops at the end.
unfoldable pub substr : Bytes → ℕ → ℕ → Outcome Bytes
substr s pos count =
    if ltb (length s) pos then throws out_of_range else ok (take count (drop pos s))

-- `substr(pos)`.
unfoldable pub substr_from : Bytes → ℕ → Outcome Bytes
substr_from s pos = if ltb (length s) pos then throws out_of_range else ok (drop pos s)

-- `starts_with` and `ends_with`.
unfoldable pub starts_with : Bytes → Bytes → Bool
starts_with s [] = true
starts_with [] (b ∷ t) = false
starts_with (a ∷ s) (b ∷ t) = a == b && starts_with s t

unfoldable pub ends_with : Bytes → Bytes → Bool
ends_with s t = leb (length t) (length s) && same (drop (length s - length t) s) t

pub ends_with-append : (s t : Bytes) → ends_with (s ++ t) t ≡ true
unfolding ends_with
ends_with-append s t =
    let start : length (s ++ t) - length t ≡ length s = omega (arith, length-append s t) in
    rw (ends_with, start, drop-append s t, same_refl t) (ground (arith, length-append s t))

-- No byte of the text is `c`.
abbrev pub Avoids : ℕ → Bytes → Type 0
Avoids c = All (λ b. b ≢ c)

pub find-Avoids : (c : ℕ) (s t : Bytes) → Avoids c s → find c (s ++ c ∷ t) ≡ some (length s)
unfolding find
find-Avoids c [] t h = ground arith
find-Avoids c (b ∷ s) t (p, h) = ground (arith, find-Avoids c s t h)

pub rfind_of_Avoids : (c : ℕ) (s : Bytes) → Avoids c s → rfind c s ≡ none
unfolding rfind
rfind_of_Avoids c [] h = refl
rfind_of_Avoids c (b ∷ s) (p, h) = ground (arith, rfind_of_Avoids c s h)

pub rfind-append : (c : ℕ) (s t : Bytes) → Avoids c t → rfind c (s ++ c ∷ t) ≡ some (length s)
unfolding rfind
rfind-append c [] t h = ground (arith, rfind_of_Avoids c t h)
rfind-append c (b ∷ s) t h = rw (rfind-append c s t h, rfind)

pub substr-prefix : (s t : Bytes) → substr (s ++ t) 0 (length s) ≡ ok s
unfolding substr
substr-prefix s t = rw (take-append s t) (ground arith)

suc_one : (n : ℕ) → suc n + 1 ≡ suc (n + 1)
suc_one n = omega arith

drop_past : (c : ℕ) (s t : Bytes) → drop (length s + 1) (s ++ c ∷ t) ≡ t
drop_past c [] t = refl
drop_past c (b ∷ s) t = rw (suc_one (length s)) (drop_past c s t)

pub substr_from-append : (c : ℕ) (s t : Bytes) → substr_from (s ++ c ∷ t) (length s + 1) ≡ ok t
unfolding substr_from
substr_from-append c s t = rw (drop_past c s t) (ground (arith, length-append s (c ∷ t)))

rfind_split_suc :
    (c : ℕ) (s : Bytes) (i : ℕ)
    → rfind c s ≡ some i
    → (s ≡ take i s ++ c ∷ drop (suc i) s) × (i < length s)
unfolding rfind
rfind_split_suc c [] i h = cc
rfind_split_suc c (b ∷ s) zero h = ground arith
rfind_split_suc c (b ∷ s) (suc i) h = ground (arith, rfind_split_suc c s i)

-- The text before the last `c`, and the text after it.
pub rfind_split :
    (c : ℕ) (s : Bytes) (i : ℕ)
    → rfind c s ≡ some i
    → (s ≡ take i s ++ c ∷ drop (i + 1) s) × (i < length s)
rfind_split c s i h = rw add-one (rfind_split_suc c s i h)

-- The text between two positions.
pub substr-between :
    (c : ℕ) (s t r : Bytes) → substr (s ++ c ∷ (t ++ r)) (length s + 1) (length t) ≡ ok t
unfolding substr
substr-between c s t r =
    rw (drop_past c s (t ++ r), take-append t r) (ground (arith, length-append s (c ∷ (t ++ r))))

pub rfind-between :
    (c : ℕ) (s t r : Bytes)
    → Avoids c r
    → rfind c (s ++ c ∷ (t ++ c ∷ r)) ≡ some (length s + 1 + length t)
rfind-between c s t r h =
    rw (← append_assoc s (c ∷ t) (c ∷ r), rfind-append c (s ++ c ∷ t) r h)
      (ap some (omega (arith, length-append s (c ∷ t))))
