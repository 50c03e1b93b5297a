-- ===== src/Notify/Queues.antt =====
-- queueargs.go of the consumer, which repeats the publisher's, and the constants of consumer.go.
use helpdesk_microservices.Base.{String, [], ◌∷◌, ◌=s=◌, if◌then◌else◌}
use helpdesk_microservices.Amqp.{Arguments}

abbrev pub persist_queue : String
persist_queue = "ticket_created"

abbrev pub fanout_exchange : String
fanout_exchange = "ticket_events"

abbrev pub dead_letter_exchange : String
dead_letter_exchange = "ticket_events.dlx"

abbrev pub dead_letter_queue : String
dead_letter_queue = "ticket_events.dlq"

unfoldable pub persist_queue_args : String → Arguments
persist_queue_args queue_type =
    ("x-dead-letter-exchange", dead_letter_exchange)
    ∷ (if queue_type =s= "quorum" then ("x-queue-type", "quorum") ∷ [] else [])

unfoldable pub dead_letter_args : String → Arguments
dead_letter_args queue_type =
    if queue_type =s= "quorum" then ("x-queue-type", "quorum") ∷ [] else []
