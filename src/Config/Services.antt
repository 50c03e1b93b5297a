-- ===== src/Config/Services.antt =====
-- `Load` of each service: its configuration, or the message with which it exits. `env` is the environment, in
-- which a variable that is not set is the empty text.
use helpdesk_microservices.Base.{ℕ, ◌=s=◌, Bool, not, String, List, Result, ok, ◌>>◌, guard}
use helpdesk_microservices.Config.Parse.{
  Formats, parse_int_or_default, parse_float_or_default, parse_duration_or_default, parse_origins,
  split_csv, queue_type_or_default, default_max_open, default_max_idle, default_lifetime,
}

-- The settings that three of the services share.
pub record Database : Type 0 where
  pub host : String
  pub user : String
  pub password : String
  pub name : String
  pub port : String
  pub max_open_conns : ℕ
  pub max_idle_conns : ℕ
  pub conn_max_lifetime : ℕ

abbrev pub required : (value message : String) → Result String (Unit {0})
required value message = guard (not (value =s= "")) message

module _ (f : Formats) where
  pub record GatewayConfig : Type 0 where
    pub app_port : String
    pub jwt_secret : String
    pub auth_service_url : String
    pub ticket_service_url : String
    pub allowed_origins : List String
    pub rate_limit_rps : f.Float
    pub rate_limit_burst : f.Float
    pub internal_secret : String
    pub redis_url : String

  pub record AuthConfig : Type 0 where
    pub app_port : String
    pub jwt_secret : String
    pub database : Database
    pub internal_secret : String
    pub enable_swagger : Bool
    pub auth_rate_limit_rps : f.Float
    pub auth_rate_limit_burst : f.Float
    pub redis_url : String
    pub max_sessions_per_user : ℕ
    pub bootstrap_admin_email : String
    pub bootstrap_admin_password : String

  pub record TicketConfig : Type 0 where
    pub app_port : String
    pub rabbitmq_url : String
    pub rabbit_queue_type : String
    pub database : Database
    pub internal_secret : String
    pub ticket_rate_limit_rps : f.Float
    pub ticket_rate_limit_burst : f.Float
    pub redis_url : String
    pub enable_swagger : Bool

  pub record NotificationConfig : Type 0 where
    pub app_port : String
    pub rabbitmq_url : String
    pub rabbit_queue_type : String
    pub jwt_secret : String
    pub allowed_origins : List String
    pub ws_rate_limit_rps : f.Float
    pub ws_rate_limit_burst : f.Float
    pub trusted_proxies : List String
    pub redis_url : String
    pub max_ws_connections : ℕ
    pub database : Database

  unfoldable pub database_config : (env : String → String) → Database
  unfolding parse_int_or_default parse_duration_or_default
  database_config env = record {
    host = env "DB_HOST";
    user = env "DB_USER";
    password = env "DB_PASSWORD";
    name = env "DB_NAME";
    port = env "DB_PORT";
    max_open_conns = parse_int_or_default (env "DB_MAX_OPEN_CONNS") default_max_open;
    max_idle_conns = parse_int_or_default (env "DB_MAX_IDLE_CONNS") default_max_idle;
    conn_max_lifetime = parse_duration_or_default f (env "DB_CONN_MAX_LIFETIME") default_lifetime;
  }

  unfoldable pub load_gateway : (env : String → String) → Result String GatewayConfig
  unfolding parse_origins parse_float_or_default
  load_gateway env = do
    required (env "APP_PORT") "APP_PORT is required"
    required (env "JWT_SECRET") "JWT_SECRET is required"
    required (env "INTERNAL_SHARED_SECRET") "INTERNAL_SHARED_SECRET is required"
    ok (record {
      app_port = env "APP_PORT";
      jwt_secret = env "JWT_SECRET";
      auth_service_url = env "AUTH_SERVICE_URL";
      ticket_service_url = env "TICKET_SERVICE_URL";
      allowed_origins = parse_origins (env "ALLOWED_ORIGINS");
      rate_limit_rps = parse_float_or_default f (env "RATE_LIMIT_RPS") (f.whole 10);
      rate_limit_burst = parse_float_or_default f (env "RATE_LIMIT_BURST") (f.whole 20);
      internal_secret = env "INTERNAL_SHARED_SECRET";
      redis_url = env "REDIS_URL";
    })

  unfoldable pub load_auth : (env : String → String) → Result String AuthConfig
  unfolding database_config parse_float_or_default parse_int_or_default
  load_auth env = do
    required (env "APP_PORT") "APP_PORT is required"
    required (env "JWT_SECRET") "JWT_SECRET is required"
    required (env "DB_HOST") "DB_HOST is required"
    required (env "INTERNAL_SHARED_SECRET") "INTERNAL_SHARED_SECRET is required"
    ok (record {
      app_port = env "APP_PORT";
      jwt_secret = env "JWT_SECRET";
      database = database_config env;
      internal_secret = env "INTERNAL_SHARED_SECRET";
      enable_swagger = env "ENABLE_SWAGGER" =s= "true";
      auth_rate_limit_rps = parse_float_or_default f (env "AUTH_RATE_LIMIT_RPS") (f.whole 5);
      auth_rate_limit_burst = parse_float_or_default f (env "AUTH_RATE_LIMIT_BURST") (f.whole 10);
      redis_url = env "REDIS_URL";
      max_sessions_per_user = parse_int_or_default (env "MAX_SESSIONS_PER_USER") 5;
      bootstrap_admin_email = env "BOOTSTRAP_ADMIN_EMAIL";
      bootstrap_admin_password = env "BOOTSTRAP_ADMIN_PASSWORD";
    })

  unfoldable pub load_ticket : (env : String → String) → Result String TicketConfig
  unfolding database_config parse_float_or_default queue_type_or_default
  load_ticket env = do
    required (env "APP_PORT") "APP_PORT is required"
    required (env "DB_HOST") "DB_HOST is required"
    required (env "INTERNAL_SHARED_SECRET") "INTERNAL_SHARED_SECRET is required"
    ok (record {
      app_port = env "APP_PORT";
      rabbitmq_url = env "RABBITMQ_URL";
      rabbit_queue_type = queue_type_or_default (env "RABBITMQ_QUEUE_TYPE");
      database = database_config env;
      internal_secret = env "INTERNAL_SHARED_SECRET";
      ticket_rate_limit_rps = parse_float_or_default f (env "TICKET_RATE_LIMIT_RPS") (f.whole 5);
      ticket_rate_limit_burst =
          parse_float_or_default f (env "TICKET_RATE_LIMIT_BURST") (f.whole 10);
      redis_url = env "REDIS_URL";
      enable_swagger = env "ENABLE_SWAGGER" =s= "true";
    })

  unfoldable pub load_notification : (env : String → String) → Result String NotificationConfig
  unfolding database_config parse_float_or_default parse_int_or_default parse_origins split_csv
      queue_type_or_default
  load_notification env = do
    required (env "APP_PORT") "APP_PORT is required"
    required (env "JWT_SECRET") "JWT_SECRET is required"
    required (env "DB_HOST") "DB_HOST is required"
    ok (record {
      app_port = env "APP_PORT";
      rabbitmq_url = env "RABBITMQ_URL";
      rabbit_queue_type = queue_type_or_default (env "RABBITMQ_QUEUE_TYPE");
      jwt_secret = env "JWT_SECRET";
      allowed_origins = parse_origins (env "ALLOWED_ORIGINS");
      ws_rate_limit_rps = parse_float_or_default f (env "WS_RATE_LIMIT_RPS") (f.whole 5);
      ws_rate_limit_burst = parse_float_or_default f (env "WS_RATE_LIMIT_BURST") (f.whole 10);
      trusted_proxies = split_csv (env "TRUSTED_PROXIES");
      redis_url = env "REDIS_URL";
      max_ws_connections = parse_int_or_default (env "MAX_WS_CONNECTIONS") 1000;
      database = database_config env;
    })
