-- ===== src/Notify/Consumer/Session.antt =====
-- What the two consumers open, close and declare.
use helpdesk_microservices.Base.{ℕ, zero, suc, ◌≡◌, refl, true, false, String, List, [], ◌∷◌, Bool}
use helpdesk_microservices.Amqp.{Call, AmqpError, Broker, Amqp, Log, invoke, tell}
use helpdesk_microservices.Amqp.Balance.{
  held, Held, Outcome, Opens, Opens-bind, Opens-on_error, Opens-or_else, Opens-return, Opens-throw,
  Opens-invoke, Opens-dial, Opens-open_channel, Opens-tell, Opens-close_channel,
  Opens-close_connection, Opens-deferred, is_quiet,
}
use helpdesk_microservices.Publisher.Dial.{dial_amqp}
use helpdesk_microservices.Publisher.Opening.{dial_amqp-Opens}
use helpdesk_microservices.Notify.Inbox.{NotificationStore}
use helpdesk_microservices.Notify.Hub.{Outbound}
use helpdesk_microservices.Notify.Consumer.Defs.{
  dial_attempts, consumer_startup_delay, Delivery, Ending, returned_error, dial_with_retry, settle,
  persist_one, persist_loop, subscribe_persist, with_channel, consume_persist, broadcast_one,
  broadcast_loop, subscribe_broadcast, consume_broadcast,
}

settle-quiet : (success : Bool) (tag : ℕ) → is_quiet (settle success tag) ≡ true
unfolding settle
settle-quiet true tag = refl
settle-quiet false tag = refl

abbrev open_both : Held
open_both = held 1 1

module _ (broker : Broker) where
  dial_with_retry-Opens :
      (url : String) (attempts delay : ℕ)
      → Opens (held 0 0) (held 1 0) (held 0 0) (dial_with_retry broker url attempts delay)
  unfolding dial_with_retry
  dial_with_retry-Opens url zero delay = Opens-throw (held 0 0) (held 1 0) AmqpError.nil_connection
  dial_with_retry-Opens url (suc zero) delay =
      Opens-on_error (tell (Call.sleep delay)) (invoke broker (Call.dial url))
        (Opens-tell (held 0 0) (Call.sleep delay) refl) (Opens-dial broker 0 0 url)
  dial_with_retry-Opens url (suc (suc more)) delay =
      Opens-or_else (invoke broker (Call.dial url)) _ (Opens-dial broker 0 0 url) (
        Opens-bind (tell (Call.sleep delay)) _ (Opens-tell (held 0 0) (Call.sleep delay) refl)
          λ _. dial_with_retry-Opens url (suc more) delay)

  with_channel-Opens :
      {A : Type 0} (url : String) (work : Amqp A)
      → Opens open_both open_both open_both work
      → Opens (held 0 0) (held 0 0) (held 0 0) (with_channel broker url work)
  unfolding with_channel
  with_channel-Opens url work w =
      Opens-bind _ _ (dial_with_retry-Opens url dial_attempts consumer_startup_delay) λ _.
        Opens-deferred (tell Call.close_connection) _ (Opens-close_connection 0 0 (held 0 0)) (
          Opens-bind _ _ (Opens-open_channel broker 1 0) λ _.
            Opens-deferred (tell Call.close_channel) work (Opens-close_channel 1 0 (held 1 0)) w)

  subscribe_persist-Opens :
      (queue_type : String)
      → Opens open_both open_both open_both (subscribe_persist broker queue_type)
  unfolding subscribe_persist
  subscribe_persist-Opens queue_type = Opens-bind _ _ (Opens-invoke broker open_both _ refl) λ _.
      Opens-bind _ _ (Opens-invoke broker open_both _ refl) λ _.
        Opens-bind _ _ (Opens-invoke broker open_both _ refl) λ dlq.
          Opens-bind _ _ (Opens-invoke broker open_both _ refl) λ _.
            Opens-bind _ _ (Opens-invoke broker open_both _ refl) λ q.
              Opens-bind _ _ (Opens-invoke broker open_both _ refl)
                λ _. Opens-invoke broker open_both _ refl

  subscribe_broadcast-Opens : Opens open_both open_both open_both (subscribe_broadcast broker)
  unfolding subscribe_broadcast
  subscribe_broadcast-Opens = Opens-bind _ _ (Opens-invoke broker open_both _ refl) λ _.
      Opens-bind _ _ (Opens-invoke broker open_both _ refl) λ q.
        Opens-bind _ _ (Opens-invoke broker open_both _ refl)
          λ _. Opens-invoke broker open_both _ refl

broadcast_loop-Opens :
    (queue : List Outbound) (messages : List Delivery) (ending : Ending)
    → Opens open_both open_both open_both (broadcast_loop queue messages ending)
unfolding broadcast_loop
broadcast_loop-Opens queue [] ending =
    Opens-return open_both open_both (queue, returned_error ending)
broadcast_loop-Opens queue (m ∷ more) ending =
    let (success, after) = broadcast_one queue m in
    Opens-bind _ _ (Opens-tell open_both (settle success m.tag) (settle-quiet success m.tag))
      λ _. broadcast_loop-Opens after more ending

module _ {Db : Type 0} (store : NotificationStore Db) where
  persist_loop-Opens :
      (db : Db) (messages : List Delivery) (ending : Ending)
      → Opens open_both open_both open_both (persist_loop store db messages ending)
  unfolding persist_loop
  persist_loop-Opens db [] ending = Opens-return open_both open_both (db, returned_error ending)
  persist_loop-Opens db (m ∷ more) ending =
      let (success, after) = persist_one store db m in
      Opens-bind _ _ (Opens-tell open_both (settle success m.tag) (settle-quiet success m.tag))
        λ _. persist_loop-Opens after more ending

  -- The publisher's dialing leaves one connection and one channel open where it succeeds and
  -- none where it fails. Both consumers close every connection and channel that they open. This
  -- is so at whatever call the broker fails, whatever was called before, and however the loop
  -- over the messages ends.
  pub connections-Outcome :
      (broker : Broker) (url queue_type : String) (attempts delay : ℕ) (db : Db)
      (queue : List Outbound) (messages : List Delivery) (ending : Ending) (log : Log)
      → Outcome
          (held 0 0)
          (held 1 1)
          (held 0 0)
          log
          (dial_amqp broker url queue_type attempts delay log)
        × Outcome
            (held 0 0)
            (held 0 0)
            (held 0 0)
            log
            (consume_persist store broker url queue_type db messages ending log)
        × Outcome
            (held 0 0)
            (held 0 0)
            (held 0 0)
            log
            (consume_broadcast broker url queue messages ending log)
  unfolding consume_persist consume_broadcast
  connections-Outcome broker url queue_type attempts delay db queue messages ending log = (
    (dial_amqp-Opens broker url queue_type attempts delay).outcome log,
    (with_channel-Opens broker url _ (
          Opens-bind _ _ (subscribe_persist-Opens broker queue_type)
            λ _. persist_loop-Opens db messages ending)).outcome
        log,
    (with_channel-Opens broker url _ (
          Opens-bind _ _ (subscribe_broadcast-Opens broker)
            λ _. broadcast_loop-Opens queue messages ending)).outcome
        log,
  )
