-- ===== src/Publisher/Dial.antt =====
-- dialAMQP, amqpSession and NewPublisher's dial: a session is opened, and a message handed to the broker.
use helpdesk_microservices.Base.{ℕ, zero, suc, true, false, String, []}
use helpdesk_microservices.Amqp.{
  Call, AmqpError, Broker, Amqp, ◌>>=◌, ◌>>◌, return, throw, invoke, tell, on_error, or_else,
}
use helpdesk_microservices.Publisher.Queues.{
  queue_name, events_exchange, dlx_exchange, dlq_queue, main_queue_args, dlq_args,
}

abbrev pub max_startup_retries : ℕ
max_startup_retries = 15

abbrev pub startup_retry_delay : ℕ
startup_retry_delay = 2000

abbrev pub request_reconnect_attempts : ℕ
request_reconnect_attempts = 2

abbrev pub request_reconnect_delay : ℕ
request_reconnect_delay = 500

-- The loop over the attempts: it sleeps between two, and not after the last. Only where there is no attempt
-- at all the connection is nil and no error is set.
unfoldable pub dial_loop : Broker → (url : String) → (attempts delay : ℕ) → Amqp String
unfolding invoke tell
dial_loop broker url zero delay log = throw AmqpError.nil_connection log
dial_loop broker url (suc zero) delay log = invoke broker (Call.dial url) log
dial_loop broker url (suc (suc more)) delay log =
    or_else (tell (Call.sleep delay) >> dial_loop broker url (suc more) delay)
      (invoke broker (Call.dial url) log)

-- The exchanges, the queues and their bindings.
unfoldable pub declare : Broker → (queue_type : String) → Amqp String
unfolding invoke main_queue_args dlq_args
declare broker queue_type = do
  invoke broker (Call.exchange_declare events_exchange "fanout" true false false false [])
  invoke broker (Call.exchange_declare dlx_exchange "fanout" true false false false [])
  dlq ← invoke broker (Call.queue_declare dlq_queue true false false false (dlq_args queue_type))
  invoke broker (Call.queue_bind dlq "" dlx_exchange false)
  q ←
      invoke broker
        (Call.queue_declare queue_name true false false false (main_queue_args queue_type))
  invoke broker (Call.queue_bind q "" events_exchange false)

unfoldable pub hang_up : Amqp (Unit {0})
unfolding tell
hang_up = do tell Call.close_channel; tell Call.close_connection

-- A session is open when this succeeds.
unfoldable pub dial_amqp :
    Broker → (url queue_type : String) → (attempts delay : ℕ) → Amqp (Unit {0})
unfolding dial_loop invoke tell declare hang_up
dial_amqp broker url queue_type attempts delay = do
  dial_loop broker url attempts delay
  on_error (tell Call.close_connection) (invoke broker Call.open_channel)
  on_error hang_up (do declare broker queue_type; invoke broker (Call.confirm false))
  return tt

-- What the wait for the broker's confirm may end in; each is only logged.
pub data Confirmation : Type 0 where
  acked nacked timed_out : Confirmation

unfoldable pub wait_for_confirm : Confirmation → (message : String) → String
wait_for_confirm Confirmation.acked message = "sent and confirmed"
wait_for_confirm Confirmation.nacked message = "nacked publish"
wait_for_confirm Confirmation.timed_out message = "publish confirm wait failed"

-- An error only where the message could not be handed off; the second part is what is logged.
unfoldable pub session_publish : Broker → Confirmation → (message : String) → Amqp String
unfolding invoke wait_for_confirm
session_publish broker confirmation message = do
  invoke broker (Call.publish events_exchange "" false false "text/plain" message)
  return (wait_for_confirm confirmation message)
