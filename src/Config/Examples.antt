-- ===== src/Config/Examples.antt =====
-- Services that start with whole numbers for limits.
use helpdesk_microservices.Base.{ℕ, false, none, some, String, leb, ◌=s=◌, if◌then◌else◌, [], ◌∷◌}
use helpdesk_microservices.Config.Parse.{Formats}
use helpdesk_microservices.Config.Services.{
  Database, GatewayConfig, AuthConfig, TicketConfig, NotificationConfig,
}

-- The only text that is a number is "0", which is not positive.
abbrev only_zero : Formats
only_zero = record {
  Float = ℕ;
  whole = λ n. n;
  parse_float = λ s. if s =s= "0" then some 0 else none;
  at_most_zero = λ v. leb v 0;
  parse_duration = λ s. none;
}

abbrev env : String → String
env name =
    if name =s= "RATE_LIMIT_RPS"
    then "0"
    else if name =s= "DB_MAX_OPEN_CONNS"
    then "-3"
    else if name =s= "MAX_WS_CONNECTIONS"
    then "200"
    else "set"

abbrev shared_database : Database
shared_database = record {
  host = "set";
  user = "set";
  password = "set";
  name = "set";
  port = "set";
  max_open_conns = 20;
  max_idle_conns = 5;
  conn_max_lifetime = 1800000000000;
}

abbrev gateway : GatewayConfig only_zero
gateway = record {
  app_port = "set";
  jwt_secret = "set";
  auth_service_url = "set";
  ticket_service_url = "set";
  allowed_origins = "set" ∷ [];
  rate_limit_rps = 10;
  rate_limit_burst = 20;
  internal_secret = "set";
  redis_url = "set";
}

abbrev auth : AuthConfig only_zero
auth = record {
  app_port = "set";
  jwt_secret = "set";
  database = shared_database;
  internal_secret = "set";
  enable_swagger = false;
  auth_rate_limit_rps = 5;
  auth_rate_limit_burst = 10;
  redis_url = "set";
  max_sessions_per_user = 5;
  bootstrap_admin_email = "set";
  bootstrap_admin_password = "set";
}

abbrev ticket : TicketConfig only_zero
ticket = record {
  app_port = "set";
  rabbitmq_url = "set";
  rabbit_queue_type = "set";
  database = shared_database;
  internal_secret = "set";
  ticket_rate_limit_rps = 5;
  ticket_rate_limit_burst = 10;
  redis_url = "set";
  enable_swagger = false;
}

abbrev notification : NotificationConfig only_zero
notification = record {
  app_port = "set";
  rabbitmq_url = "set";
  rabbit_queue_type = "set";
  jwt_secret = "set";
  allowed_origins = "set" ∷ [];
  ws_rate_limit_rps = 5;
  ws_rate_limit_burst = 10;
  trusted_proxies = "set" ∷ [];
  redis_url = "set";
  max_ws_connections = 200;
  database = shared_database;
}
