-- ===== src/Notify/InboxExamples.antt =====
-- An inbox with two users, deliveries of each kind, and handshakes behind a proxy.
use mathlib.Core.List.{Memᴰ}
use Prim.Native.String.{◌++◌}
use helpdesk_microservices.Base.{
  ℕ, ◌+◌, ◌≡◌, refl, Bool, true, false, Option, none, some, String, List, [], ◌∷◌, ok, err, ◌=s=◌,
  if◌then◌else◌,
}
use helpdesk_microservices.Amqp.{Call, Broker, Log}
use helpdesk_microservices.Amqp.Balance.{held, Outcome}
use helpdesk_microservices.Amqp.Declared.{declared}
use helpdesk_microservices.Numeral.{parse_uint}
use helpdesk_microservices.Jwt.{Jwt}
use helpdesk_microservices.Jwt.Sample.{sample_jwt}
use helpdesk_microservices.Tickets.Handler.{Event}
use helpdesk_microservices.Publisher.Dial.{dial_amqp, dial_loop, declare}
use helpdesk_microservices.Notify.Inbox.{Notification, NotificationStore, mark_read}
use helpdesk_microservices.Notify.Inbox.Memory.{memory_inbox}
use helpdesk_microservices.Notify.Inbox.Backlog.{Request, perform, Refines, perform-Refines}
use helpdesk_microservices.Notify.Endpoints.{InboxRequest, InboxReply, require_auth, serve_inbox}
use helpdesk_microservices.Notify.Access.{Caller, Own, serve_inbox-Own}
use helpdesk_microservices.Notify.Consumer.{
  Delivery, Ending, returned_error, persist_loop, consume_persist, consume_broadcast,
}
use helpdesk_microservices.Notify.Consumer.Settled.{Settled, persist_loop-Settled}
use helpdesk_microservices.Notify.Consumer.Session.{connections-Outcome}
use helpdesk_microservices.Notify.Consumer.Agreement.{dial_amqp-consume_persist}
use helpdesk_microservices.Notify.ClientIp.{NetPackage, is_trusted, client_ip}
use helpdesk_microservices.Notify.Spoofing.{comma, client_ip-unspoofed}
use helpdesk_microservices.Text.{split_at, trim_space}

abbrev inbox : NotificationStore (List Notification)
inbox = memory_inbox 50

abbrev notice : (id user : ℕ) → (payload : String) → (read : Bool) → Notification
notice id user payload read = record {
  id = id;
  user_id = user;
  payload = payload;
  read = read;
  created_at = 10 + id;
}

abbrev two_users : List Notification
two_users = notice 1 2 "a" false ∷ notice 2 3 "b" false ∷ []

abbrev one_read : List Notification
one_read = notice 1 2 "a" true ∷ notice 2 3 "b" false ∷ []

perform-Refines_example : Refines inbox two_users one_read (Request.read_one 1 2)
unfolding perform mark_read memory_inbox
perform-Refines_example = perform-Refines inbox two_users one_read (Request.read_one 1 2) refl

abbrev tokens : Jwt
tokens = sample_jwt 2 "user" 7230 604830

serve_inbox-Own_example :
    (user : ℕ) × Caller tokens "secret" 30 "Bearer access" user
    × Own inbox two_users one_read (InboxReply.marked "marked read") user
unfolding serve_inbox require_auth sample_jwt mark_read memory_inbox parse_uint
serve_inbox-Own_example =
    serve_inbox-Own inbox tokens "secret" 30 "Bearer access" two_users one_read
      (InboxRequest.patch_read "1") (InboxReply.marked "marked read") refl

abbrev event_for : Option ℕ → Event
event_for user = record {
  kind = "ticket_assigned";
  ticket_id = 7;
  title = "";
  status = "assigned";
  target_user_id = user;
  target_roles = "admin" ∷ [];
}

-- One for a user, one for roles, and one that is malformed.
abbrev three_messages : List Delivery
three_messages =
    (record { tag = 1; body = "{}"; event = some (event_for (some 3)) })
    ∷ (record { tag = 2; body = "[]"; event = some (event_for none) })
    ∷ (record { tag = 3; body = "?"; event = none })
    ∷ []

abbrev broken_off : Ending
broken_off = Ending.connection_closed (some "reset")

persist_loop-Settled_example :
    (after : List Notification) × (log : Log) × (persist_loop inbox two_users three_messages
        broken_off []
      ≡ (ok (after, returned_error broken_off), log))
    × Settled inbox three_messages two_users after [] log
persist_loop-Settled_example = persist_loop-Settled inbox two_users three_messages broken_off []

-- A broker that takes every call, and one that refuses to declare a queue.
abbrev willing : Broker
willing log c = ok "q"

abbrev no_queues : Broker
no_queues log (Call.queue_declare name durable auto_delete exclusive no_wait args) = err "refused"
no_queues log c = ok ""

connections-Outcome_example :
    Outcome (held 0 0) (held 1 1) (held 0 0) [] (dial_amqp no_queues "amqp://" "quorum" 2 500 [])
    × Outcome
        (held 0 0)
        (held 0 0)
        (held 0 0)
        []
        (consume_persist inbox no_queues "amqp://" "quorum" two_users three_messages broken_off [])
    × Outcome
        (held 0 0)
        (held 0 0)
        (held 0 0)
        []
        (consume_broadcast no_queues "amqp://" [] three_messages broken_off [])
connections-Outcome_example =
    connections-Outcome inbox no_queues "amqp://" "quorum" 2 500 two_users [] three_messages
      broken_off []

abbrev dialed : Log
unfolding dial_amqp dial_loop declare
dialed = (dial_amqp willing "amqp://" "quorum" 2 500 []).1

abbrev consumed : Log
unfolding consume_persist
consumed = (consume_persist inbox willing "amqp://" "quorum" two_users [] broken_off []).1

dial_amqp-consume_persist_example : declared dialed ≡ declared consumed
unfolding dial_amqp consume_persist
dial_amqp-consume_persist_example =
    dial_amqp-consume_persist inbox willing willing "amqp://" "quorum" 2 500 two_users two_users []
      broken_off (some "reset") dialed consumed refl refl

-- Two addresses, of which one is the proxy's network.
abbrev two_hosts : NetPackage
two_hosts = record {
  Address = String;
  Network = String;
  parse_ip = λ s. if s =s= "proxy" then some s else if s =s= "home" then some s else none;
  is_v4 = λ ip. true;
  parse_cidr = λ s. some s;
  contains = λ n ip. n =s= ip;
  split_host = λ s. none;
}

client_ip-unspoofed_example :
    client_ip two_hosts ("proxy" ∷ []) "proxy" ("faked" ++ String.◌∷◌ comma "home")
    ≡ client_ip two_hosts ("proxy" ∷ []) "proxy" "home"
unfolding split_at is_trusted trim_space
client_ip-unspoofed_example =
    client_ip-unspoofed two_hosts ("proxy" ∷ []) "proxy" "faked" "home" "home" refl (Memᴰ.head refl)
      refl
