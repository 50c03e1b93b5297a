-- ===== src/Config/Started.antt =====
-- A service that starts has its secrets, and its limits are in order.
use helpdesk_microservices.Base.{◌<◌, ◌≡◌, ◌≢◌, false}
use helpdesk_microservices.Config.Parse.{Formats}
use helpdesk_microservices.Config.Services.{
  Database, GatewayConfig, AuthConfig, TicketConfig, NotificationConfig,
}

-- `v <= 0` does not hold. Of a number it says that it is positive; it is so of a NaN too.
abbrev pub NotAtMostZero : (f : Formats) → f.Float → Type 0
NotAtMostZero f v = f.at_most_zero v ≡ false

module _ (f : Formats) where
  -- The pool of a service that has a database.
  pub record Pooled (d : Database) : Type 0 where
    pub named : d.host ≢ ""
    pub open_conns : 0 < d.max_open_conns
    pub idle_conns : 0 < d.max_idle_conns
    pub lifetime : 0 < d.conn_max_lifetime

  pub record GatewayStarted (c : GatewayConfig f) : Type 0 where
    pub port : c.app_port ≢ ""
    pub signing_key : c.jwt_secret ≢ ""
    pub shared_secret : c.internal_secret ≢ ""
    pub rate : NotAtMostZero f c.rate_limit_rps
    pub burst : NotAtMostZero f c.rate_limit_burst

  pub record AuthStarted (c : AuthConfig f) : Type 0 where
    pub port : c.app_port ≢ ""
    pub signing_key : c.jwt_secret ≢ ""
    pub shared_secret : c.internal_secret ≢ ""
    pub pooled : Pooled c.database
    pub rate : NotAtMostZero f c.auth_rate_limit_rps
    pub burst : NotAtMostZero f c.auth_rate_limit_burst
    pub sessions : 0 < c.max_sessions_per_user

  pub record TicketStarted (c : TicketConfig f) : Type 0 where
    pub port : c.app_port ≢ ""
    pub shared_secret : c.internal_secret ≢ ""
    pub pooled : Pooled c.database
    pub rate : NotAtMostZero f c.ticket_rate_limit_rps
    pub burst : NotAtMostZero f c.ticket_rate_limit_burst

  pub record NotificationStarted (c : NotificationConfig f) : Type 0 where
    pub port : c.app_port ≢ ""
    pub signing_key : c.jwt_secret ≢ ""
    pub pooled : Pooled c.database
    pub rate : NotAtMostZero f c.ws_rate_limit_rps
    pub burst : NotAtMostZero f c.ws_rate_limit_burst
    pub connections : 0 < c.max_ws_connections
