-- ===== src/Notify/Examples.antt =====
-- A hub with three connections, on which the theorems on it are run.
use helpdesk_microservices.Base.{
  ℕ, ◌≡◌, refl, not, ◌&&◌, ◌==◌, Bool, some, String, List, [], ◌∷◌, map, keep, All,
}
use helpdesk_microservices.Jwt.{Jwt}
use helpdesk_microservices.Jwt.Sample.{sample_jwt}
use helpdesk_microservices.Tickets.Handler.{Event}
use helpdesk_microservices.Notify.Hub.{
  Client, Outbound, matches, enqueue, deliver, Step, Reachable, authorize, is_full, empty_hub, Hub,
  Step, Reachable, authorize, is_full,
}
use helpdesk_microservices.Notify.Delivery.{conn_of, deliver_lem, Authorized, Reachable-Authorized}

abbrev client : (conn : ℕ) → String → (user : ℕ) → Client
client conn role user = record { conn = conn; role = role; user_id = user }

abbrev connected : List Client
connected = client 1 "agent" 3 ∷ client 2 "user" 2 ∷ client 3 "agent" 3 ∷ []

abbrev to_three : Outbound
to_three = record { payload = "{}"; target_user_id = some 3; target_roles = [] }

abbrev last_fails : ℕ → Bool
last_fails conn = conn == 3

deliver_lem_example :
    ((deliver last_fails to_three connected).0
      ≡ map conn_of (keep (λ c. matches c to_three) connected))
    × ((deliver last_fails to_three connected).1
        ≡ keep (λ c. not (matches c to_three && last_fails c.conn)) connected)
deliver_lem_example = deliver_lem last_fails to_three connected

abbrev assigned : Event
assigned = record {
  kind = "ticket_assigned";
  ticket_id = 7;
  title = "";
  status = "assigned";
  target_user_id = some 3;
  target_roles = [];
}

abbrev jwt : Jwt
jwt = sample_jwt 3 "agent" 7230 604830

abbrev queued : Hub
queued = record empty_hub { queue = enqueue [] to_three }

abbrev waiting : Hub
waiting = record empty_hub { pending = client 1 "agent" 3 ∷ [] }

abbrev joined : Hub
joined = record empty_hub { clients = client 1 "agent" 3 ∷ [] }

joined-Reachable : Reachable jwt "secret" 100 joined
unfolding authorize sample_jwt is_full
joined-Reachable =
    Reachable.next waiting joined
      (Reachable.next empty_hub waiting Reachable.start
        (Step.passes_check empty_hub (client 1 "agent" 3) 30 "access" refl refl))
      (Step.registers waiting [] [] (client 1 "agent" 3) refl)

Reachable-Authorized_example : All (Authorized jwt "secret" 100) joined.clients
Reachable-Authorized_example = Reachable-Authorized jwt "secret" 100 joined joined-Reachable
