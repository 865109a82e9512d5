-- ===== src/Config.antt =====
-- core/config/app_config: the configuration and its loader.
pub mod Documents
use svitock.Base.{ℕ, Bytes, codes, Outcome, ok, throws, ◌>>=◌}
use svitock.Extern.Yaml.{YamlLib}

pub record ServerConfig : Type 0 where
  pub host : Bytes
  pub ws_port : ℕ
  pub http_port : ℕ
  pub network_threads : ℕ
  pub actor_threads : ℕ
  pub storage_threads : ℕ
  pub mailbox_capacity : ℕ

pub record DatabaseConfig : Type 0 where
  pub host : Bytes
  pub port : ℕ
  pub user : Bytes
  pub password : Bytes
  pub db : Bytes
  pub pool_size : ℕ

pub record SecurityConfig : Type 0 where
  pub jwt_secret : Bytes
  pub jwt_ttl_seconds : ℕ

pub record LoggingConfig : Type 0 where
  pub level : Bytes

pub record AppConfig : Type 0 where
  pub server : ServerConfig
  pub database : DatabaseConfig
  pub security : SecurityConfig
  pub logging : LoggingConfig

module _ (yaml : YamlLib) where
  open yaml use {Node, load_file, child, text_or, number_or, text, number}

  -- `root[section][key]`.
  abbrev pub entry : Node → Bytes → Bytes → Outcome Node
  entry root section key = do below ← child root section; child below key

  abbrev pub text_entry : Node → Bytes → Bytes → Bytes → Outcome Bytes
  text_entry root section key fallback = do
    node ← entry root section key
    ok (text_or node fallback)

  abbrev pub number_entry : ℕ → Node → Bytes → Bytes → ℕ → Outcome ℕ
  number_entry width root section key fallback = do
    node ← entry root section key
    ok (number_or width node fallback)

  unfoldable pub server_config : Node → Outcome ServerConfig
  server_config root = do
    host ← text_entry root (codes "server") (codes "host") (codes "0.0.0.0")
    ws_port ← number_entry 16 root (codes "server") (codes "ws_port") 8080
    http_port ← number_entry 16 root (codes "server") (codes "http_port") 8081
    network_threads ← number_entry 64 root (codes "server") (codes "network_threads") 4
    actor_threads ← number_entry 64 root (codes "server") (codes "actor_threads") 8
    storage_threads ← number_entry 64 root (codes "server") (codes "storage_threads") 4
    mailbox_capacity ← number_entry 64 root (codes "server") (codes "mailbox_capacity") 65536
    ok (record {
      host = host;
      ws_port = ws_port;
      http_port = http_port;
      network_threads = network_threads;
      actor_threads = actor_threads;
      storage_threads = storage_threads;
      mailbox_capacity = mailbox_capacity;
    })

  unfoldable pub database_config : Node → Outcome DatabaseConfig
  database_config root = do
    host ← entry root (codes "database") (codes "host") >>= text
    port ← entry root (codes "database") (codes "port") >>= number 16
    user ← entry root (codes "database") (codes "user") >>= text
    password ← entry root (codes "database") (codes "password") >>= text
    db ← entry root (codes "database") (codes "db") >>= text
    pool_size ← number_entry 16 root (codes "database") (codes "pool_size") 16
    ok (record {
      host = host;
      port = port;
      user = user;
      password = password;
      db = db;
      pool_size = pool_size;
    })

  -- `ConfigLoader::fromFile`.
  unfoldable pub from_file : Bytes → Outcome AppConfig
  unfolding server_config database_config
  from_file path = do
    root ← load_file path
    server ← server_config root
    database ← database_config root
    jwt_secret ← text_entry root (codes "security") (codes "jwt_secret") (codes "change-me")
    jwt_ttl ← number_entry 64 root (codes "security") (codes "jwt_ttl_seconds") 3600
    level ← text_entry root (codes "logging") (codes "level") (codes "info")
    ok (record {
      server = server;
      database = database;
      security = record { jwt_secret = jwt_secret; jwt_ttl_seconds = jwt_ttl };
      logging = record { level = level };
    })
