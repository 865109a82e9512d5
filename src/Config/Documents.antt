-- ===== src/Config/Documents.antt =====
-- The documents that the loader reads, as config/server.yaml is one, and what it makes of them.
use svitock.Base.{ℕ, ◌^◌, ◌<◌, ◌≡◌, refl, true, false, Option, none, some, Bytes, codes, ok, ◌>>=◌}
use svitock.Base.Digits.{to_string}
use svitock.Extern.Yaml.{YamlLib, IsYaml}
use svitock.Config.{
  AppConfig, entry, text_entry, number_entry, server_config, database_config, from_file,
}

-- The settings of a document: those of the database, but the size of its pool, and any of the others.
pub record Settings : Type 0 where
  pub host : Option Bytes
  pub ws_port : Option ℕ
  pub http_port : Option ℕ
  pub network_threads : Option ℕ
  pub actor_threads : Option ℕ
  pub storage_threads : Option ℕ
  pub mailbox_capacity : Option ℕ
  pub db_host : Bytes
  pub db_port : ℕ
  pub db_user : Bytes
  pub db_password : Bytes
  pub db_name : Bytes
  pub pool_size : Option ℕ
  pub jwt_secret : Option Bytes
  pub jwt_ttl_seconds : Option ℕ
  pub level : Option Bytes

abbrev pub or_else : {A : Type 0} → Option A → A → A
or_else none d = d
or_else (some a) d = a

-- The configuration with these settings, and the documented values for those that are left out.
abbrev pub config_of : Settings → AppConfig
config_of s = record {
  server = record {
    host = or_else s.host (codes "0.0.0.0");
    ws_port = or_else s.ws_port 8080;
    http_port = or_else s.http_port 8081;
    network_threads = or_else s.network_threads 4;
    actor_threads = or_else s.actor_threads 8;
    storage_threads = or_else s.storage_threads 4;
    mailbox_capacity = or_else s.mailbox_capacity 65536;
  };
  database = record {
    host = s.db_host;
    port = s.db_port;
    user = s.db_user;
    password = s.db_password;
    db = s.db_name;
    pool_size = or_else s.pool_size 16;
  };
  security = record {
    jwt_secret = or_else s.jwt_secret (codes "change-me");
    jwt_ttl_seconds = or_else s.jwt_ttl_seconds 3600;
  };
  logging = record { level = or_else s.level (codes "info") };
}

module _ (yaml : YamlLib) where
  open yaml use {Node, is_map, member, scalar}

  -- The map `n` has this scalar under a key, or no entry.
  abbrev pub HasEntry : Node → Bytes → Option Bytes → Type 0
  HasEntry n key none = member n key ≡ none
  HasEntry n key (some t) = (m : Node) × (member n key ≡ some m) × (scalar m ≡ some t)

  -- The same for the digits of a number that fits.
  abbrev pub HasNumber : ℕ → Node → Bytes → Option ℕ → Type 0
  HasNumber width n key none = member n key ≡ none
  HasNumber width n key (some k) = (k < 2 ^ width) × HasEntry n key (some (to_string k))

  -- A map has a map under a key.
  abbrev pub HasSection : Node → Bytes → Node → Type 0
  HasSection n key m = (is_map n ≡ true) × (member n key ≡ some m) × (is_map m ≡ true)

  -- A document has these settings.
  pub record Shows (root : Node) (s : Settings) : Type 0 where
    pub server : Node
    pub database : Node
    pub security : Node
    pub logging : Node
    pub server_there : HasSection root (codes "server") server
    pub database_there : HasSection root (codes "database") database
    pub security_there : HasSection root (codes "security") security
    pub logging_there : HasSection root (codes "logging") logging
    pub host : HasEntry server (codes "host") s.host
    pub ws_port : HasNumber 16 server (codes "ws_port") s.ws_port
    pub http_port : HasNumber 16 server (codes "http_port") s.http_port
    pub network_threads : HasNumber 64 server (codes "network_threads") s.network_threads
    pub actor_threads : HasNumber 64 server (codes "actor_threads") s.actor_threads
    pub storage_threads : HasNumber 64 server (codes "storage_threads") s.storage_threads
    pub mailbox_capacity : HasNumber 64 server (codes "mailbox_capacity") s.mailbox_capacity
    pub db_host : HasEntry database (codes "host") (some s.db_host)
    pub db_port : HasNumber 16 database (codes "port") (some s.db_port)
    pub db_user : HasEntry database (codes "user") (some s.db_user)
    pub db_password : HasEntry database (codes "password") (some s.db_password)
    pub db_name : HasEntry database (codes "db") (some s.db_name)
    pub pool_size : HasNumber 16 database (codes "pool_size") s.pool_size
    pub jwt_secret : HasEntry security (codes "jwt_secret") s.jwt_secret
    pub jwt_ttl_seconds : HasNumber 64 security (codes "jwt_ttl_seconds") s.jwt_ttl_seconds
    pub level : HasEntry logging (codes "level") s.level

  module _ (laws : IsYaml yaml) (root : Node) (section key : Bytes) (below : Node)
      (there : HasSection root section below) where
    entry-member : (m : Node) → member below key ≡ some m → entry yaml root section key ≡ ok m
    entry-member m h =
        rw
          (
            laws.child-member root below section there.0 there.1,
            laws.child-member below m key there.2 h,
          )
          refl

    entry-missing :
        member below key ≡ none
        → (m : Node) × (entry yaml root section key ≡ ok m) × (yaml.is_defined m ≡ false)
    entry-missing h =
        let (m, found, undefined) = laws.child-missing below key there.2 h in
        (m, rw (laws.child-member root below section there.0 there.1, found) refl, undefined)

    text_entry_lem :
        (o : Option Bytes) (d : Bytes)
        → HasEntry below key o
        → text_entry yaml root section key d ≡ ok (or_else o d)
    text_entry_lem none d h =
        let (m, found, undefined) = entry-missing h in
        rw (found, laws.text_or-undefined m d undefined) refl
    text_entry_lem (some t) d (m, h, text) =
        rw (entry-member m h, laws.text_or-scalar m t d text) refl

    number_entry_lem :
        (width : ℕ) (o : Option ℕ) (d : ℕ)
        → HasNumber width below key o
        → number_entry yaml width root section key d ≡ ok (or_else o d)
    number_entry_lem width none d h =
        let (m, found, undefined) = entry-missing h in
        rw (found, laws.number_or-undefined width m d undefined) refl
    number_entry_lem width (some k) d (fits, (m, h, digits)) =
        rw (entry-member m h, laws.number_or-scalar width m k d fits digits) refl

    required_text :
        (t : Bytes)
        → HasEntry below key (some t)
        → (entry yaml root section key >>= yaml.text) ≡ ok t
    required_text t (m, h, text) = rw (entry-member m h, laws.text-scalar m t text) refl

    required_number :
        (width k : ℕ)
        → HasNumber width below key (some k)
        → (entry yaml root section key >>= yaml.number width) ≡ ok k
    required_number width k (fits, (m, h, digits)) =
        rw (entry-member m h, laws.number-scalar width m k fits digits) refl

  module _ (laws : IsYaml yaml) (root : Node) (s : Settings) (v : Shows root s) where
    server_config_lem : server_config yaml root ≡ ok (config_of s).server
    unfolding server_config
    server_config_lem =
        let text =
          λ (key : Bytes). text_entry_lem laws root (codes "server") key v.server v.server_there in
        let number = λ (key : Bytes).
          number_entry_lem laws root (codes "server") key v.server v.server_there in
        rw
          (
            text (codes "host") s.host (codes "0.0.0.0") v.host,
            number (codes "ws_port") 16 s.ws_port 8080 v.ws_port,
            number (codes "http_port") 16 s.http_port 8081 v.http_port,
            number (codes "network_threads") 64 s.network_threads 4 v.network_threads,
            number (codes "actor_threads") 64 s.actor_threads 8 v.actor_threads,
            number (codes "storage_threads") 64 s.storage_threads 4 v.storage_threads,
            number (codes "mailbox_capacity") 64 s.mailbox_capacity 65536 v.mailbox_capacity,
          )
          refl

    database_config_lem : database_config yaml root ≡ ok (config_of s).database
    unfolding database_config
    database_config_lem =
        let text = λ (key : Bytes).
          required_text laws root (codes "database") key v.database v.database_there in
        rw
          (
            text (codes "host") s.db_host v.db_host,
            required_number laws root (codes "database") (codes "port") v.database v.database_there
                16 s.db_port v.db_port,
            text (codes "user") s.db_user v.db_user,
            text (codes "password") s.db_password v.db_password,
            text (codes "db") s.db_name v.db_name,
            number_entry_lem laws root (codes "database") (codes "pool_size") v.database
                v.database_there 16 s.pool_size 16 v.pool_size,
          )
          refl

    -- The loader returns from a file with a document of some settings, which has its four sections
    -- and those of the database, but for the size of the pool, and in which the numbers fit the
    -- members that hold them: with these settings, each under its own name, and the documented
    -- values for those that the document leaves out.
    pub from_file-Shows :
        (path : Bytes) → yaml.load_file path ≡ ok root → from_file yaml path ≡ ok (config_of s)
    unfolding from_file
    from_file-Shows path loaded =
        rw
          (
            loaded,
            server_config_lem,
            database_config_lem,
            text_entry_lem laws root (codes "security") (codes "jwt_secret") v.security
                v.security_there s.jwt_secret (codes "change-me") v.jwt_secret,
            number_entry_lem laws root (codes "security") (codes "jwt_ttl_seconds") v.security
                v.security_there 64 s.jwt_ttl_seconds 3600 v.jwt_ttl_seconds,
            text_entry_lem laws root (codes "logging") (codes "level") v.logging v.logging_there
                s.level (codes "info") v.level,
          )
          refl
