-- ===== src/Tests/Documents.antt =====
-- A small YAML library, and the loader over a document.
use mathlib.Core.Option
use svitock.Base.{
  ℕ, ◌≡◌, refl, ap, ◌∙◌, ◌<◌, ◌^◌, Bool, true, false, ◌&&◌, Option, none, some, [], ◌∷◌, Bytes,
  codes, same, same_refl, ltb, Outcome, ok, throws, config_error, arith, if◌then◌else◌,
}
use svitock.Base.Digits.{to_string, of_string, of_string-to_string}
use svitock.Base.Dict.{Dict, lookup}
use svitock.Extern.Yaml.{YamlLib, IsYaml}
use svitock.Config.{from_file}
use svitock.Config.Documents.{Settings, Shows, or_else, config_of, from_file-Shows}

-- A YAML value: nothing, a scalar, a section or a document of sections.
pub data Yaml : Type 0 where
  undefined : Yaml
  leaf : Bytes → Yaml
  section : Dict Bytes → Yaml
  document : Dict (Dict Bytes) → Yaml

abbrev yaml_member : Yaml → Bytes → Option Yaml
yaml_member (section d) key = Option.map leaf (lookup key d)
yaml_member (document d) key = Option.map section (lookup key d)
yaml_member n key = none

abbrev yaml_is_map : Yaml → Bool
yaml_is_map (section d) = true
yaml_is_map (document d) = true
yaml_is_map n = false

abbrev or_undefined : Option Yaml → Outcome Yaml
or_undefined none = ok undefined
or_undefined (some m) = ok m

abbrev yaml_child : Yaml → Bytes → Outcome Yaml
yaml_child undefined key = throws config_error
yaml_child n key = or_undefined (yaml_member n key)

abbrev yaml_text : Yaml → Option Bytes
yaml_text (leaf t) = some t
yaml_text n = none

-- A text that is the digits of a number of the width.
abbrev digits_of : ℕ → Bytes → Option ℕ
digits_of width t =
    let n = of_string t in if same (to_string n) t && ltb n (2 ^ width) then some n else none

abbrev yaml_number : ℕ → Yaml → Option ℕ
yaml_number width (leaf t) = digits_of width t
yaml_number width n = none

abbrev given : {A : Type 0} → Option A → Outcome A
given none = throws config_error
given (some a) = ok a

abbrev pub small_yaml : Yaml → YamlLib
small_yaml root = record {
  Node = Yaml;
  load_file = λ path. ok root;
  child = yaml_child;
  text_or = λ n d. or_else (yaml_text n) d;
  number_or = λ w n d. or_else (yaml_number w n) d;
  text = λ n. given (yaml_text n);
  number = λ w n. given (yaml_number w n);
  is_map = yaml_is_map;
  member = yaml_member;
  is_defined = λ n. elim n [ undefined ↦ false | _ ↦ true ];
  scalar = yaml_text;
}

digits_of-to_string : (width k : ℕ) → k < 2 ^ width → digits_of width (to_string k) ≡ some k
digits_of-to_string width k h =
    rw (of_string-to_string k, same_refl (to_string k)) (fits (2 ^ width) k h)
  where
    fits : (m n : ℕ) → n < m → (if true && ltb n m then some n else none) ≡ some n
    fits m n h = ground arith

yaml_number-scalar :
    (width : ℕ) (n : Yaml) (k : ℕ)
    → k < 2 ^ width
    → yaml_text n ≡ some (to_string k)
    → yaml_number width n ≡ some k
yaml_number-scalar width (leaf t) k h e =
    let same_text : t ≡ to_string k = cc in
    ap (digits_of width) same_text ∙ digits_of-to_string width k h
yaml_number-scalar width undefined k h e = cc
yaml_number-scalar width (section d) k h e = cc
yaml_number-scalar width (document d) k h e = cc

child-there :
    (n m : Yaml) (key : Bytes)
    → yaml_is_map n ≡ true
    → yaml_member n key ≡ some m
    → yaml_child n key ≡ ok m
child-there undefined m key map e = cc
child-there (leaf t) m key map e = cc
child-there (section d) m key map e = ap or_undefined e
child-there (document d) m key map e = ap or_undefined e

child-not_there :
    (n : Yaml) (key : Bytes)
    → yaml_is_map n ≡ true
    → yaml_member n key ≡ none
    → yaml_child n key ≡ ok undefined
child-not_there undefined key map e = cc
child-not_there (leaf t) key map e = cc
child-not_there (section d) key map e = ap or_undefined e
child-not_there (document d) key map e = ap or_undefined e

no_text : (n : Yaml) → (small_yaml n).is_defined n ≡ false → yaml_text n ≡ none
no_text undefined h = refl
no_text (leaf t) h = cc
no_text (section d) h = refl
no_text (document d) h = refl

no_number :
    (width : ℕ) (n : Yaml) → (small_yaml n).is_defined n ≡ false → yaml_number width n ≡ none
no_number width undefined h = refl
no_number width (leaf t) h = cc
no_number width (section d) h = refl
no_number width (document d) h = refl

small_yaml-IsYaml : (root : Yaml) → IsYaml (small_yaml root)
small_yaml-IsYaml root = record {
  child-member = child-there;
  child-missing = λ n key map e. (undefined, child-not_there n key map e, refl);
  text_or-undefined = λ n d h. ap (λ o. or_else o d) (no_text n h);
  number_or-undefined = λ w n d h. ap (λ o. or_else o d) (no_number w n h);
  text_or-scalar = λ n t d h. ap (λ o. or_else o d) h;
  text-scalar = λ n t h. ap given h;
  number_or-scalar = λ w n k d h e. ap (λ o. or_else o d) (yaml_number-scalar w n k h e);
  number-scalar = λ w n k h e. ap given (yaml_number-scalar w n k h e);
}

-- A file with the settings of the database and the two ports; the rest is left out.
abbrev pub two_ports : Yaml
two_ports = document (
    (codes "server", (codes "ws_port", codes "9000") ∷ (codes "http_port", codes "9001") ∷ [])
    ∷ (
      codes "database",
      (codes "host", codes "db")
          ∷ (codes "port", codes "5432")
          ∷ (codes "user", codes "u")
          ∷ (codes "password", codes "p")
          ∷ (codes "db", codes "d")
          ∷ [],
    )
    ∷ (codes "security", [])
    ∷ (codes "logging", [])
    ∷ [])

abbrev settings : Settings
settings = record {
  host = none;
  ws_port = some 9000;
  http_port = some 9001;
  network_threads = none;
  actor_threads = none;
  storage_threads = none;
  mailbox_capacity = none;
  db_host = codes "db";
  db_port = 5432;
  db_user = codes "u";
  db_password = codes "p";
  db_name = codes "d";
  pool_size = none;
  jwt_secret = none;
  jwt_ttl_seconds = none;
  level = none;
}

two_ports_shown : Shows (small_yaml two_ports) two_ports settings
unfolding lookup same to_string
two_ports_shown = record {
  server = _;
  database = _;
  security = _;
  logging = _;
  server_there = (refl, refl, refl);
  database_there = (refl, refl, refl);
  security_there = (refl, refl, refl);
  logging_there = (refl, refl, refl);
  host = refl;
  ws_port = (omega arith, (leaf (codes "9000"), refl, refl));
  http_port = (omega arith, (leaf (codes "9001"), refl, refl));
  network_threads = refl;
  actor_threads = refl;
  storage_threads = refl;
  mailbox_capacity = refl;
  db_host = (leaf (codes "db"), refl, refl);
  db_port = (omega arith, (leaf (codes "5432"), refl, refl));
  db_user = (leaf (codes "u"), refl, refl);
  db_password = (leaf (codes "p"), refl, refl);
  db_name = (leaf (codes "d"), refl, refl);
  pool_size = refl;
  jwt_secret = refl;
  jwt_ttl_seconds = refl;
  level = refl;
}

from_file-Shows_example :
    from_file (small_yaml two_ports) (codes "config/server.yaml") ≡ ok (config_of settings)
from_file-Shows_example =
    from_file-Shows (small_yaml two_ports) (small_yaml-IsYaml two_ports) two_ports settings
      two_ports_shown (codes "config/server.yaml") refl
