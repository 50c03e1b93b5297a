-- ===== src/Publisher/Queues.antt =====
-- The names and the queue arguments: the constants of publisher.go, and queueargs.go.
use helpdesk_microservices.Base.{◌=s=◌, String, [], ◌∷◌, not, ◌&&◌, Result, guard, if◌then◌else◌}
use helpdesk_microservices.Amqp.{Arguments}

abbrev pub queue_name : String
queue_name = "ticket_created"

abbrev pub events_exchange : String
events_exchange = "ticket_events"

abbrev pub dlx_exchange : String
dlx_exchange = "ticket_events.dlx"

abbrev pub dlq_queue : String
dlq_queue = "ticket_events.dlq"

abbrev pub queue_type_classic : String
queue_type_classic = "classic"

abbrev pub queue_type_quorum : String
queue_type_quorum = "quorum"

-- The error names the two types and the one that was given.
unfoldable pub validate_queue_type : String → Result String (Unit {0})
validate_queue_type t =
    guard (not (not (t =s= queue_type_classic) && not (t =s= queue_type_quorum))) t

-- In the order of the keys: an `amqp091.Table` is a map.
unfoldable pub main_queue_args : String → Arguments
main_queue_args queue_type =
    ("x-dead-letter-exchange", dlx_exchange)
    ∷ (if queue_type =s= queue_type_quorum then ("x-queue-type", queue_type_quorum) ∷ [] else [])

unfoldable pub dlq_args : String → Arguments
dlq_args queue_type =
    if queue_type =s= queue_type_quorum then ("x-queue-type", queue_type_quorum) ∷ [] else []
