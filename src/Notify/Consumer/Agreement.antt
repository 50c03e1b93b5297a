-- ===== src/Notify/Consumer/Agreement.antt =====
-- The publisher and the consumer declare the queue that they share, and each its exchanges.
use helpdesk_microservices.Base.{
  ℕ, zero, suc, ◌≡◌, refl, sym, ◌∙◌, true, false, String, List, [], ◌∷◌, Option, keep, Bool,
  Result-cases, inl, inr,
}
use helpdesk_microservices.Amqp.{Call, Broker, Log, invoke, tell}
use helpdesk_microservices.Amqp.Declared.{
  Succeeds, declared, is_declaration, Declares, Declares-bind, Declares-none, Declares-invoke,
  Declares-other, Declares-deferred, or_else-declared, tell-declared,
}
use helpdesk_microservices.Publisher.Queues.{main_queue_args, dlq_args}
use helpdesk_microservices.Publisher.Dial.{dial_amqp}
use helpdesk_microservices.Publisher.Opening.{topology, dial_amqp-Declares}
use helpdesk_microservices.Notify.Queues.{persist_queue_args, dead_letter_args}
use helpdesk_microservices.Notify.Inbox.{NotificationStore}
use helpdesk_microservices.Notify.Consumer.Defs.{
  dial_attempts, consumer_startup_delay, Delivery, Ending, dial_with_retry, settle, persist_one,
  persist_loop, subscribe_persist, with_channel, consume_persist,
}

module _ (broker : Broker) where
  dial_with_retry-declared :
      (url : String) (attempts delay : ℕ) (log : Log)
      → declared (dial_with_retry broker url attempts delay log).1 ≡ declared log
  unfolding dial_with_retry invoke tell declared keep
  dial_with_retry-declared url zero delay log = refl
  dial_with_retry-declared url (suc zero) delay log =
      elim (Result-cases (broker log (Call.dial url))) [
        | inl (name, q) ↦ rw q refl
        | inr (x, q) ↦ rw q refl
      ]
  dial_with_retry-declared url (suc (suc more)) delay log =
      or_else-declared (Call.dial url) _ log (broker log (Call.dial url)) refl λ after.
        dial_with_retry-declared url (suc more) delay
          (record { call = Call.sleep delay; succeeded = true } ∷ after)

  subscribe_persist-Declares :
      (queue_type : String) → Declares (topology queue_type) (subscribe_persist broker queue_type)
  unfolding subscribe_persist persist_queue_args dead_letter_args main_queue_args dlq_args
  subscribe_persist-Declares queue_type = Declares-bind _ _ (Declares-invoke broker _ refl) λ _.
      Declares-bind _ _ (Declares-invoke broker _ refl) λ _.
        Declares-bind _ _ (Declares-invoke broker _ refl) λ dlq.
          Declares-bind _ _ (Declares-other broker _ refl) λ _.
            Declares-bind _ _ (Declares-invoke broker _ refl) λ q.
              Declares-bind _ _ (Declares-other broker _ refl) λ _. Declares-other broker _ refl

settle-declares : (success : Bool) (tag : ℕ) → is_declaration (settle success tag) ≡ false
unfolding settle
settle-declares true tag = refl
settle-declares false tag = refl

module _ {Db : Type 0} (store : NotificationStore Db) where
  persist_loop-declared :
      (db : Db) (messages : List Delivery) (ending : Ending) (log : Log)
      → declared (persist_loop store db messages ending log).1 ≡ declared log
  unfolding persist_loop tell
  persist_loop-declared db [] ending log = refl
  persist_loop-declared db (m ∷ more) ending log =
      let (success, after) = persist_one store db m in
      persist_loop-declared after more ending (tell (settle success m.tag) log).1
      ∙ tell-declared (settle success m.tag) log (settle-declares success m.tag)

  consume_persist-Declares :
      (broker : Broker) (url queue_type : String) (db : Db) (messages : List Delivery)
      (ending : Ending)
      → Declares
          (topology queue_type)
          (consume_persist store broker url queue_type db messages ending)
  unfolding consume_persist with_channel
  consume_persist-Declares broker url queue_type db messages ending =
      Declares-bind _ _
        (Declares-none _ (dial_with_retry-declared broker url dial_attempts consumer_startup_delay))
        λ _.
          Declares-deferred (tell Call.close_connection) _
            (λ log. tell-declared Call.close_connection log refl)
            (Declares-bind _ _ (Declares-other broker Call.open_channel refl) λ _.
              Declares-deferred (tell Call.close_channel) _
                (λ log. tell-declared Call.close_channel log refl)
                (Declares-bind _ _ (subscribe_persist-Declares broker queue_type)
                  λ _. Declares-none _ (persist_loop-declared db messages ending)))

  -- With the same queue type, a publisher that has dialed and a consumer that has run have
  -- declared the same exchanges and queues, with the same flags and arguments, each on a broker
  -- of its own.
  pub dial_amqp-consume_persist :
      (broker other : Broker) (url queue_type : String) (attempts delay : ℕ) (db after : Db)
      (messages : List Delivery) (ending : Ending) (error : Option String) (log log' : Log)
      → Succeeds (dial_amqp broker url queue_type attempts delay) [] tt log
      → Succeeds
          (consume_persist store other url queue_type db messages ending)
          []
          (after, error)
          log'
      → declared log ≡ declared log'
  dial_amqp-consume_persist broker other url queue_type attempts delay db after messages ending
        error log log' h g =
      (dial_amqp-Declares broker url queue_type attempts delay).declares [] log tt h
      ∙ sym (
          (consume_persist-Declares other url queue_type db messages ending).declares [] log'
            (after, error) g)
