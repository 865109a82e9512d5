-- ===== src/Base/Exceptions.antt =====
-- A C++ call returns or throws. An exception that no handler takes ends the process.
use Prim.Native.Nat.{ℕ}
use mathlib.Core.List.{List}
use mathlib.Core.Path.{◌≡◌, refl}
use mathlib.Core.Logic.{◌⊎◌, inl, inr}
use mathlib.Core.Bool.{Bool, true, false}
use svitock.Base.Tests.{if◌then◌else◌}

pub data Exception : Type 0 where
  -- `nlohmann::json`: an access that does not fit the value, text that does not parse, text that is
  -- no UTF-8.
  type_error parse_error encoding_error : Exception
  -- `boost::uuids::string_generator` on text that is no UUID.
  invalid_uuid : Exception
  -- `std::string::substr` past the end.
  out_of_range : Exception
  -- `pqxx`: a statement or the connection failed.
  database_error : Exception
  -- `core::errors::InfrastructureError`.
  infrastructure_error : Exception
  -- `std::runtime_error` with its text.
  runtime_error : List ℕ → Exception
  -- `yaml-cpp`: a file or a value that cannot be read.
  config_error : Exception
  -- No exception, but a call that the standard leaves undefined, such as `front` of an empty deque.
  undefined_behaviour : Exception

pub data Outcome {ℓ} (A : Type ℓ) : Type ℓ where
  ok : A → Outcome A
  throws : Exception → Outcome A

infixl 5 ◌>>=◌
abbrev pub ◌>>=◌ {ℓ κ} : {A : Type ℓ} {B : Type κ} → Outcome A → (A → Outcome B) → Outcome B
ok a >>= f = f a
throws e >>= f = throws e

-- A sequence that returns has a first call that returned.
pub >>=-eq-ok {ℓ κ} :
    {A : Type ℓ} {B : Type κ} (call : Outcome A) (next : A → Outcome B) {result : B}
    → (call >>= next) ≡ ok result
    → (value : A) × (call ≡ ok value) × (next value ≡ ok result)
>>=-eq-ok (ok value) next returns = (value, refl, returns)
>>=-eq-ok (throws e) next returns = cc

-- If the call returns, `P` holds of its result.
abbrev pub Ensures {ℓ κ} : {A : Type ℓ} → (A → Type κ) → Outcome A → Type κ
Ensures P (ok a) = P a
Ensures P (throws e) = Unit

pub Ensures->>= {ℓ κ μ} :
    {A : Type ℓ} {B : Type κ} (P : B → Type μ) (m : Outcome A) (f : A → Outcome B)
    → ((a : A) → Ensures P (f a))
    → Ensures P (m >>= f)
Ensures->>= P (ok a) f h = h a
Ensures->>= P (throws e) f h = tt

-- The same, where what follows may use the result of the call.
pub Ensures->>=_eq {ℓ κ μ} :
    {A : Type ℓ} {B : Type κ} (P : B → Type μ) (m : Outcome A) (f : A → Outcome B)
    → ((a : A) → m ≡ ok a → Ensures P (f a))
    → Ensures P (m >>= f)
Ensures->>=_eq P (ok a) f h = h a refl
Ensures->>=_eq P (throws e) f h = tt

-- The same, where what the call ensures is used.
pub Ensures-chain {ℓ κ μ ν} :
    {A : Type ℓ} {B : Type κ} (Q : A → Type ν) (P : B → Type μ) (m : Outcome A) (f : A → Outcome B)
    → Ensures Q m
    → ((a : A) → Q a → Ensures P (f a))
    → Ensures P (m >>= f)
Ensures-chain Q P (ok a) f h k = k a h
Ensures-chain Q P (throws e) f h k = tt

pub Ensures-ok {ℓ κ} :
    {A : Type ℓ} (P : A → Type κ) (m : Outcome A) (a : A) → Ensures P m → m ≡ ok a → P a
Ensures-ok P m a h e = rw e at h

pub Ensures-if {ℓ κ} :
    {A : Type ℓ} (P : A → Type κ) (b : Bool) (m n : Outcome A)
    → Ensures P m
    → Ensures P n
    → Ensures P (if b then m else n)
Ensures-if P true m n h k = h
Ensures-if P false m n h k = k

pub >>=_assoc {ℓ κ μ} :
    {A : Type ℓ} {B : Type κ} {C : Type μ} (m : Outcome A) (f : A → Outcome B) (g : B → Outcome C)
    → (m >>= f >>= g) ≡ (m >>= λ a. f a >>= g)
>>=_assoc (ok a) f g = refl
>>=_assoc (throws e) f g = refl

-- Sequences that go on alike are equal.
pub >>=_ext {ℓ κ} :
    {A : Type ℓ} {B : Type κ} (m : Outcome A) (f g : A → Outcome B)
    → ((a : A) → f a ≡ g a)
    → (m >>= f) ≡ (m >>= g)
>>=_ext (ok a) f g h = h a
>>=_ext (throws e) f g h = refl

pub Outcome-cases {ℓ} :
    {A : Type ℓ} (m : Outcome A) → ((a : A) × (m ≡ ok a)) ⊎ ((e : Exception) × (m ≡ throws e))
Outcome-cases (ok a) = inl (a, refl)
Outcome-cases (throws e) = inr (e, refl)

pub Ensures-if_true {ℓ κ} :
    {A : Type ℓ} (P : A → Type κ) (b : Bool) (m n : Outcome A)
    → b ≡ true
    → Ensures P m
    → Ensures P (if b then m else n)
Ensures-if_true P true m n e h = h
Ensures-if_true P false m n e h = cc

pub Ensures-mono {ℓ κ μ} :
    {A : Type ℓ} (P : A → Type κ) (Q : A → Type μ) (m : Outcome A)
    → ((a : A) → P a → Q a)
    → Ensures P m
    → Ensures Q m
Ensures-mono P Q (ok a) k h = k a h
Ensures-mono P Q (throws e) k h = tt

-- The call returns.
abbrev pub Returns {ℓ} : {A : Type ℓ} → Outcome A → Type ℓ
Returns {A} m = (a : A) × (m ≡ ok a)

pub Returns->>= {ℓ κ} :
    {A : Type ℓ} {B : Type κ} (m : Outcome A) (f : A → Outcome B)
    → Returns m
    → ((a : A) → m ≡ ok a → Returns (f a))
    → Returns (m >>= f)
Returns->>= (ok a) f h k = k a refl
Returns->>= (throws e) f (_, h) k = cc

pub Returns-if {ℓ} :
    {A : Type ℓ} (b : Bool) (m : Outcome A) (a : A) → Returns m → Returns (if b then m else ok a)
Returns-if true m a h = h
Returns-if false m a h = (a, refl)
