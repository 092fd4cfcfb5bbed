-- ===== src/Api/Wiring.antt =====
-- The objects that a request is served with: the extractors and the service factories of
-- src/api/dependencies.py, and the constructors of the services of src/services.
use messenger_backend.Base.{ℕ, ◌≡◌, ap, Option, none, some, arith}
use messenger_backend.Config.Settings.{AppConfig}
use messenger_backend.Database.Connection.{DatabaseManager}
use messenger_backend.Redis.Connection as Redis
use messenger_backend.Redis.Connection.{RedisManager, Client, Outcome, returns, raises}
use messenger_backend.Services.Request.{Request, AuthConfig, TokenPair, generate_token_pair}

-- The state of the application. A token cache and a WebSocket manager are known by their identity.
pub record AppState : Type 0 where
  pub db : DatabaseManager
  pub redis : RedisManager
  pub auth_cache : ℕ
  pub ws_manager : ℕ

pub record AuthService : Type 0 where
  pub db : DatabaseManager
  pub redis : Client
  pub cache : ℕ
  pub settings : AuthConfig

pub record UserService : Type 0 where
  pub db : DatabaseManager

pub record MessagingService : Type 0 where
  pub db : DatabaseManager
  pub ws : ℕ

pub record GroupService : Type 0 where
  pub db : DatabaseManager
  pub redis : Client
  pub ws : ℕ

-- Of HTTP requests, and of WebSockets, which read the same state.
abbrev pub get_db : AppState → DatabaseManager
get_db s = s.db

-- `request.app.state.redis.client`, which raises before the client is there.
abbrev pub get_redis : AppState → Outcome Client
get_redis s = Redis.client s.redis

abbrev pub get_ws_manager : AppState → ℕ
get_ws_manager s = s.ws_manager

abbrev pub get_token_cache : AppState → ℕ
get_token_cache s = s.auth_cache

abbrev pub get_db_ws : AppState → DatabaseManager
get_db_ws s = s.db

abbrev pub get_token_cache_ws : AppState → ℕ
get_token_cache_ws s = s.auth_cache

abbrev pub get_ws_manager_ws : AppState → ℕ
get_ws_manager_ws s = s.ws_manager

-- `auth_settings or get_settings().auth`, where the settings are those that are remembered.
abbrev pub given_settings : Option AuthConfig → AppConfig → AuthConfig
given_settings none c = c.auth
given_settings (some settings) c = settings

abbrev pub init_auth_service :
    AppConfig → DatabaseManager → Client → ℕ → Option AuthConfig → AuthService
init_auth_service c db redis cache auth_settings = record {
  db = db;
  redis = redis;
  cache = cache;
  settings = given_settings auth_settings c;
}

-- `AuthService._generate_token_pair`
abbrev pub service_token_pair : AuthService → Request → TokenPair
service_token_pair service req = generate_token_pair service.settings req

abbrev pub with_redis : {A : Type 0} → Outcome Client → (Client → A) → Outcome A
with_redis (returns client) f = returns (f client)
with_redis (raises e) f = raises e

unfoldable pub get_auth_service : AppConfig → AppState → Outcome AuthService
get_auth_service c s =
    with_redis (get_redis s)
      (λ client. init_auth_service c (get_db s) client (get_token_cache s) none)

unfoldable pub get_user_service : AppState → UserService
get_user_service s = record { db = get_db s }

unfoldable pub get_messaging_service : AppState → MessagingService
get_messaging_service s = record { db = get_db s; ws = get_ws_manager s }

unfoldable pub get_group_service : AppState → Outcome GroupService
get_group_service s =
    with_redis (get_redis s)
      (λ client. record { db = get_db s; redis = client; ws = get_ws_manager s })

-- What the services of one worker share: the tables' pool, the cache that authentication reads, also
-- of WebSockets, and the WebSocket manager; token pairs last as the settings say.
services_share :
    (c : AppConfig) (s : AppState) {auth : AuthService} {group : GroupService}
    → get_auth_service c s ≡ returns auth
    → get_group_service s ≡ returns group
    → (auth.cache ≡ get_token_cache_ws s)
      × (auth.db ≡ (get_user_service s).db)
      × (auth.redis ≡ group.redis)
      × (group.ws ≡ (get_messaging_service s).ws)
      × ((req : Request) → service_token_pair auth req ≡ generate_token_pair c.auth req)
unfolding get_auth_service get_user_service get_messaging_service get_group_service
services_share c s {auth} {group} e f = (
  ground arith,
  ground arith,
  ground arith,
  ground arith,
  λ req. ap (λ (v : AuthConfig). generate_token_pair v req) (ground arith),
)
