-- ===== src/Notify/Consumer/Defs.antt =====
-- consumer.go: two loops over the messages of two queues, one that stores and one that pushes. A message
-- comes with its raw body and what the JSON decoder makes of it. A panic while one is handled is outside.
use helpdesk_microservices.Base.{
  ℕ, zero, suc, Bool, true, false, Option, none, some, String, List, [], ◌∷◌, ok, err,
}
use helpdesk_microservices.Amqp.{
  Call, AmqpError, Broker, Amqp, ◌>>=◌, ◌>>◌, return, throw, invoke, tell, deferred, on_error,
  or_else,
}
use helpdesk_microservices.Tickets.Handler.{Event}
use helpdesk_microservices.Notify.Queues.{
  persist_queue, fanout_exchange, dead_letter_exchange, dead_letter_queue, persist_queue_args,
  dead_letter_args,
}
use helpdesk_microservices.Notify.Inbox.{NotificationStore, create_notification}
use helpdesk_microservices.Notify.Hub.{Outbound, enqueue, route_event}

abbrev pub dial_attempts : ℕ
dial_attempts = 15

abbrev pub consumer_startup_delay : ℕ
consumer_startup_delay = 3000

abbrev pub reconnect_delay : ℕ
reconnect_delay = 2000

pub record Delivery : Type 0 where
  pub tag : ℕ
  pub body : String
  pub event : Option Event

-- How the loop over the messages ends: their channel is closed, or the connection's or the channel's
-- close is notified, with an error or without.
pub data Ending : Type 0 where
  messages_closed : Ending
  connection_closed : Option String → Ending
  channel_closed : Option String → Ending

-- The error that the loop returns.
abbrev pub returned_error : Ending → Option String
returned_error Ending.messages_closed = none
returned_error (Ending.connection_closed e) = e
returned_error (Ending.channel_closed e) = e

-- Every attempt that fails is followed by a pause, the last one too; after no attempt the connection is nil.
unfoldable pub dial_with_retry : Broker → (url : String) → (attempts delay : ℕ) → Amqp String
unfolding invoke tell
dial_with_retry broker url zero delay log = throw AmqpError.nil_connection log
dial_with_retry broker url (suc zero) delay log =
    on_error (tell (Call.sleep delay)) (invoke broker (Call.dial url)) log
dial_with_retry broker url (suc (suc more)) delay log =
    or_else (tell (Call.sleep delay) >> dial_with_retry broker url (suc more) delay)
      (invoke broker (Call.dial url) log)

-- A message is acknowledged, or rejected without being queued again.
unfoldable pub settle : (success : Bool) → (tag : ℕ) → Call
settle true tag = Call.ack false tag
settle false tag = Call.nack false false tag

module _ {Db : Type 0} (store : NotificationStore Db) where
  -- One message of the shared queue: whether it was handled, and the database after it.
  unfoldable pub persist_one : Db → Delivery → Bool × Db
  unfolding create_notification
  persist_one db m = elim m.event [
    | none ↦ (false, db)
    | some e ↦ elim e.target_user_id [
      | none ↦ (true, db)
      | some user ↦ elim (create_notification store db user m.body) [
        | ok after ↦ (true, after)
        | err failure ↦ (false, db)
      ]
    ]
  ]

  unfoldable pub persist_loop : Db → List Delivery → Ending → Amqp (Db × Option String)
  unfolding persist_one tell settle
  persist_loop db [] ending = return (db, returned_error ending)
  persist_loop db (m ∷ more) ending =
      let (success, after) = persist_one db m in
      tell (settle success m.tag) >> persist_loop after more ending

-- The exchanges, the queues and their bindings, and the start of the consumption.
unfoldable pub subscribe_persist : Broker → (queue_type : String) → Amqp String
unfolding invoke persist_queue_args dead_letter_args
subscribe_persist broker queue_type = do
  invoke broker (Call.exchange_declare fanout_exchange "fanout" true false false false [])
  invoke broker (Call.exchange_declare dead_letter_exchange "fanout" true false false false [])
  dlq ←
      invoke broker
        (Call.queue_declare dead_letter_queue true false false false (dead_letter_args queue_type))
  invoke broker (Call.queue_bind dlq "" dead_letter_exchange false)
  q ←
      invoke broker
        (Call.queue_declare persist_queue true false false false (persist_queue_args queue_type))
  invoke broker (Call.queue_bind q "" fanout_exchange false)
  invoke broker (Call.consume q "" false false false false [])

-- A connection and a channel that are closed however the work on them ends.
unfoldable pub with_channel : {A : Type 0} → Broker → (url : String) → Amqp A → Amqp A
unfolding dial_with_retry invoke tell
with_channel broker url work = do
  dial_with_retry broker url dial_attempts consumer_startup_delay
  deferred (tell Call.close_connection)
      (do invoke broker Call.open_channel; deferred (tell Call.close_channel) work)

unfoldable pub consume_persist :
    {Db : Type 0}
    → NotificationStore Db
    → Broker
    → (url queue_type : String) → Db
    → List Delivery
    → Ending
    → Amqp (Db × Option String)
unfolding with_channel subscribe_persist persist_loop
consume_persist store broker url queue_type db messages ending =
    with_channel broker url
      (subscribe_persist broker queue_type >> persist_loop store db messages ending)

-- One message of the replica's own queue: whether it was handled, and the hub's queue after it.
unfoldable pub broadcast_one : List Outbound → Delivery → Bool × List Outbound
unfolding route_event enqueue
broadcast_one queue m = elim m.event [
  | none ↦ (false, queue)
  | some e ↦ elim (route_event e m.body) [
    | none ↦ (true, queue)
    | some out ↦ (true, enqueue queue out)
  ]
]

unfoldable pub broadcast_loop :
    List Outbound → List Delivery → Ending → Amqp (List Outbound × Option String)
unfolding broadcast_one tell settle
broadcast_loop queue [] ending = return (queue, returned_error ending)
broadcast_loop queue (m ∷ more) ending =
    let (success, after) = broadcast_one queue m in
    tell (settle success m.tag) >> broadcast_loop after more ending

-- A queue of the replica's own: the broker names it, and drops it with the connection.
unfoldable pub subscribe_broadcast : Broker → Amqp String
unfolding invoke
subscribe_broadcast broker = do
  invoke broker (Call.exchange_declare fanout_exchange "fanout" true false false false [])
  q ← invoke broker (Call.queue_declare "" false true true false [])
  invoke broker (Call.queue_bind q "" fanout_exchange false)
  invoke broker (Call.consume q "" false false false false [])

unfoldable pub consume_broadcast :
    Broker
    → (url : String) → List Outbound
    → List Delivery
    → Ending
    → Amqp (List Outbound × Option String)
unfolding with_channel subscribe_broadcast broadcast_loop
consume_broadcast broker url queue messages ending =
    with_channel broker url (subscribe_broadcast broker >> broadcast_loop queue messages ending)
