-- ===== src/Extern/Yaml.antt =====
-- yaml-cpp, which the configuration loader calls.
use svitock.Base.{ℕ, ◌^◌, ◌<◌, ◌≡◌, Bool, true, false, Option, none, some, Bytes, Outcome, ok}
use svitock.Base.Digits.{to_string}

pub record YamlLib : Type 1 where
  pub Node : Type 0
  pub load_file : Bytes → Outcome Node
  -- `node[key]` of a constant node: an invalid node for a missing key; throws on an invalid node.
  pub child : Node → Bytes → Outcome Node
  -- `as<T>(fallback)` and `as<T>()`, at texts and at unsigned numbers of a width.
  pub text_or : Node → Bytes → Bytes
  pub number_or : ℕ → Node → ℕ → ℕ
  pub text : Node → Outcome Bytes
  pub number : ℕ → Node → Outcome ℕ
  -- What the laws speak of: whether a node is a map, its entry under a key, whether it is defined,
  -- and the text of a scalar.
  pub is_map : Node → Bool
  pub member : Node → Bytes → Option Node
  pub is_defined : Node → Bool
  pub scalar : Node → Option Bytes

-- The documented behaviour of the library.
pub record IsYaml (lib : YamlLib) : Type 0 where
  pub child-member :
      (n m : lib.Node) (key : Bytes)
      → lib.is_map n ≡ true
      → lib.member n key ≡ some m
      → lib.child n key ≡ ok m
  pub child-missing :
      (n : lib.Node) (key : Bytes)
      → lib.is_map n ≡ true
      → lib.member n key ≡ none
      → (m : lib.Node) × (lib.child n key ≡ ok m) × (lib.is_defined m ≡ false)
  -- A conversion of an undefined node gives the fallback.
  pub text_or-undefined :
      (n : lib.Node) (fallback : Bytes)
      → lib.is_defined n ≡ false
      → lib.text_or n fallback ≡ fallback
  pub number_or-undefined :
      (width : ℕ) (n : lib.Node) (fallback : ℕ)
      → lib.is_defined n ≡ false
      → lib.number_or width n fallback ≡ fallback
  -- A scalar is converted to its text, and one with the digits of a number that fits to this number.
  pub text_or-scalar :
      (n : lib.Node) (t fallback : Bytes) → lib.scalar n ≡ some t → lib.text_or n fallback ≡ t
  pub text-scalar : (n : lib.Node) (t : Bytes) → lib.scalar n ≡ some t → lib.text n ≡ ok t
  pub number_or-scalar :
      (width : ℕ) (n : lib.Node) (k fallback : ℕ)
      → k < 2 ^ width
      → lib.scalar n ≡ some (to_string k)
      → lib.number_or width n fallback ≡ k
  pub number-scalar :
      (width : ℕ) (n : lib.Node) (k : ℕ)
      → k < 2 ^ width
      → lib.scalar n ≡ some (to_string k)
      → lib.number width n ≡ ok k
