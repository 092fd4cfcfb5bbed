-- ===== src/Config/Settings.antt =====
-- src/config/settings.py: the configuration models with their defaults, and the loader.
use messenger_backend.Base.{ℕ, String, ◌≡◌, Bool, true, Option, none, some, str_eq, if◌then◌else◌}
use messenger_backend.Services.Request.{AuthConfig}

pub record LoggingConfig : Type 0 where
  pub level : String

-- `command_timeout` in milliseconds.
pub record DatabaseConfig : Type 0 where
  pub host : String
  pub port : ℕ
  pub user : String
  pub password : String
  pub database : String
  pub min_pool_size : ℕ
  pub max_pool_size : ℕ
  pub command_timeout : ℕ

pub record RedisConfig : Type 0 where
  pub url : String
  pub max_connections : ℕ

pub record AppConfig : Type 0 where
  pub logging : LoggingConfig
  pub database : DatabaseConfig
  pub auth : AuthConfig
  pub redis : RedisConfig

-- What os, yaml and pydantic do: the file of a path, if there is one; its value, unless the parser
-- raises; Python's truth of a value; the entry of a mapping; and the values that a model's field
-- takes, by the field's type.
pub record Loader : Type 1 where
  pub Value : Type 0
  pub isfile : String → Bool
  pub safe_load : String → Option Value
  pub empty_dict : Value
  pub is_true : Value → Bool
  pub is_mapping : Value → Bool
  pub entry : String → Value → Option Value
  pub as_str : Value → Option String
  pub as_int : Value → Option ℕ
  pub as_float : Value → Option ℕ
  -- An empty mapping has no entry.
  pub empty_dict_mapping : is_mapping empty_dict ≡ true
  pub empty_dict_entry : (key : String) → entry key empty_dict ≡ none

abbrev pub default_logging : LoggingConfig
default_logging = record { level = "DEBUG" }

abbrev pub default_auth : AuthConfig
default_auth = record { access_token_ttl = 900; refresh_token_ttl = 604800 }

abbrev pub default_database : DatabaseConfig
default_database = record {
  host = "localhost";
  port = 5432;
  user = "postgres";
  password = "";
  database = "app_db";
  min_pool_size = 5;
  max_pool_size = 70;
  command_timeout = 60000;
}

abbrev pub default_redis : RedisConfig
default_redis = record { url = "redis://localhost:6379/0"; max_connections = 100 }

abbrev pub default_config : AppConfig
default_config = record {
  logging = default_logging;
  database = default_database;
  auth = default_auth;
  redis = default_redis;
}

-- A ValidationError of pydantic, or what the YAML parser raises, is `none`.
abbrev pub bind : {A B : Type 0} → Option A → (A → Option B) → Option B
bind none f = none
bind (some a) f = f a

-- A model is valid if all its fields are.
abbrev pub all_valid :
    Option LoggingConfig
    → Option DatabaseConfig
    → Option AuthConfig
    → Option RedisConfig
    → Option AppConfig
all_valid (some logging) (some database) (some auth) (some redis) =
    some (record { logging = logging; database = database; auth = auth; redis = redis })
all_valid _ _ _ _ = none

module _ (l : Loader) where
  -- A field that is not given has its default.
  abbrev pub or_default : {A : Type 0} → A → (l.Value → Option A) → Option l.Value → Option A
  or_default default parse none = some default
  or_default default parse (some v) = parse v

  abbrev pub field : {A : Type 0} → String → A → (l.Value → Option A) → l.Value → Option A
  field key default parse v = or_default default parse (l.entry key v)

  -- A model is made of a mapping; entries that no field has are ignored.
  abbrev pub model : {A : Type 0} → (l.Value → Option A) → l.Value → Option A
  model fields v = if l.is_mapping v then fields v else none

  abbrev pub logging_config : l.Value → Option LoggingConfig
  logging_config = model (λ v.
      bind (field "level" default_logging.level l.as_str v)
        (λ level. some (record { level = level })))

  abbrev pub auth_config : l.Value → Option AuthConfig
  auth_config = model (λ v.
      bind (field "access_token_ttl" default_auth.access_token_ttl l.as_int v) (λ access.
        bind (field "refresh_token_ttl" default_auth.refresh_token_ttl l.as_int v)
          (λ refresh. some (record { access_token_ttl = access; refresh_token_ttl = refresh }))))

  abbrev pub database_config : l.Value → Option DatabaseConfig
  database_config = model (λ v. bind (field "host" default_database.host l.as_str v) (λ host.
      bind (field "port" default_database.port l.as_int v) (λ port.
        bind (field "user" default_database.user l.as_str v) (λ user.
          bind (field "password" default_database.password l.as_str v) (λ password.
            bind (field "database" default_database.database l.as_str v) (λ database.
              bind (field "min_pool_size" default_database.min_pool_size l.as_int v)
                (λ min_pool_size.
                  bind (field "max_pool_size" default_database.max_pool_size l.as_int v)
                    (λ max_pool_size.
                      bind (field "command_timeout" default_database.command_timeout l.as_float v)
                        (λ command_timeout. some (record {
                          host = host;
                          port = port;
                          user = user;
                          password = password;
                          database = database;
                          min_pool_size = min_pool_size;
                          max_pool_size = max_pool_size;
                          command_timeout = command_timeout;
                        }))))))))))

  abbrev pub redis_config : l.Value → Option RedisConfig
  redis_config = model (λ v. bind (field "url" default_redis.url l.as_str v) (λ url.
      bind (field "max_connections" default_redis.max_connections l.as_int v)
        (λ max_connections. some (record { url = url; max_connections = max_connections }))))

  -- `AppConfig(**d)`
  unfoldable pub app_config : l.Value → Option AppConfig
  app_config = model (λ v.
      all_valid (field "logging" default_logging logging_config v)
        (field "database" default_database database_config v)
        (field "auth" default_auth auth_config v) (field "redis" default_redis redis_config v))

  -- `yaml.safe_load(f) or {}`
  abbrev pub or_empty_dict : l.Value → l.Value
  or_empty_dict v = if l.is_true v then v else l.empty_dict

  unfoldable pub load_config_file : String → Option l.Value
  load_config_file path =
      if l.isfile path
      then bind (l.safe_load path) (λ v. some (or_empty_dict v))
      else some l.empty_dict

  -- `os.getenv("APP_CONFIG_PATH") or default_path`
  abbrev pub config_path : Option String → String
  config_path none = "config/messenger.yaml"
  config_path (some path) = if str_eq path "" then "config/messenger.yaml" else path

  abbrev pub load : Option String → Option AppConfig
  load app_config_path = bind (load_config_file (config_path app_config_path)) app_config

-- `lru_cache`: a result is remembered, an exception is not.
abbrev pub remembered : Option AppConfig → Option AppConfig × Option AppConfig
remembered none = (none, none)
remembered (some c) = (some c, some c)

-- `get_settings`, of the files and the environment of the moment, with the result and the cache.
unfoldable pub get_settings :
    Loader → Option String → Option AppConfig → Option AppConfig × Option AppConfig
get_settings l app_config_path (some c) = (some c, some c)
get_settings l app_config_path none = remembered (load l app_config_path)
