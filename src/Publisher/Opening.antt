-- ===== src/Publisher/Opening.antt =====
-- What dialing leaves open and what it declares.
use helpdesk_microservices.Base.{
  ℕ, zero, suc, keep, ◌≡◌, refl, true, false, Result-cases, inl, inr, String, List, [], ◌∷◌,
}
use helpdesk_microservices.Amqp.{Call, AmqpError, Broker, Entry, invoke, tell, Log}
use helpdesk_microservices.Amqp.Balance.{
  held, Opens, Opens-bind, Opens-on_error, Opens-or_else, Opens-return, Opens-throw, Opens-invoke,
  Opens-dial, Opens-open_channel, Opens-tell, Opens-close_channel, Opens-close_connection,
}
use helpdesk_microservices.Amqp.Declared.{
  done, declared, or_else-declared, Declares-none, Declares, Declares-bind, Declares-on_error,
  Declares-return, Declares-invoke, Declares-other,
}
use helpdesk_microservices.Publisher.Queues.{
  queue_name, events_exchange, dlx_exchange, dlq_queue, main_queue_args, dlq_args,
}
use helpdesk_microservices.Publisher.Dial.{dial_loop, declare, hang_up, dial_amqp}

module _ (broker : Broker) where
  dial_loop-Opens :
      (url : String) (attempts delay : ℕ)
      → Opens (held 0 0) (held 1 0) (held 0 0) (dial_loop broker url attempts delay)
  unfolding dial_loop
  dial_loop-Opens url zero delay = Opens-throw (held 0 0) (held 1 0) AmqpError.nil_connection
  dial_loop-Opens url (suc zero) delay = Opens-dial broker 0 0 url
  dial_loop-Opens url (suc (suc more)) delay =
      Opens-or_else (invoke broker (Call.dial url)) _ (Opens-dial broker 0 0 url) (
        Opens-bind (tell (Call.sleep delay)) _ (Opens-tell (held 0 0) (Call.sleep delay) refl)
          λ _. dial_loop-Opens url (suc more) delay)

  declare-Opens :
      (queue_type : String) → Opens (held 1 1) (held 1 1) (held 1 1) (declare broker queue_type)
  unfolding declare
  declare-Opens queue_type = Opens-bind _ _ (Opens-invoke broker (held 1 1) _ refl) λ _.
      Opens-bind _ _ (Opens-invoke broker (held 1 1) _ refl) λ _.
        Opens-bind _ _ (Opens-invoke broker (held 1 1) _ refl) λ dlq.
          Opens-bind _ _ (Opens-invoke broker (held 1 1) _ refl) λ _.
            Opens-bind _ _ (Opens-invoke broker (held 1 1) _ refl)
              λ q. Opens-invoke broker (held 1 1) _ refl

  hang_up-Opens : Opens (held 1 1) (held 0 0) (held 0 0) hang_up
  unfolding hang_up
  hang_up-Opens =
      Opens-bind _ _ (Opens-close_channel 1 0 (held 0 0)) λ _. Opens-close_connection 0 0 (held 0 0)

  pub dial_amqp-Opens :
      (url queue_type : String) (attempts delay : ℕ)
      → Opens (held 0 0) (held 1 1) (held 0 0) (dial_amqp broker url queue_type attempts delay)
  unfolding dial_amqp
  dial_amqp-Opens url queue_type attempts delay =
      Opens-bind _ _ (dial_loop-Opens url attempts delay) λ _.
        Opens-bind _ _
          (Opens-on_error _ _ (Opens-close_connection 0 0 (held 0 0))
            (Opens-open_channel broker 1 0))
          λ _.
            Opens-bind _ _
              (Opens-on_error _ _ hang_up-Opens (
                Opens-bind _ _ (declare-Opens queue_type)
                  λ _. Opens-invoke broker (held 1 1) (Call.confirm false) refl))
              λ _. Opens-return (held 1 1) (held 0 0) tt

-- The exchanges and the queues, the newest first.
abbrev pub topology : (queue_type : String) → List Entry
topology queue_type =
    done (Call.queue_declare queue_name true false false false (main_queue_args queue_type))
    ∷ done (Call.queue_declare dlq_queue true false false false (dlq_args queue_type))
    ∷ done (Call.exchange_declare dlx_exchange "fanout" true false false false [])
    ∷ done (Call.exchange_declare events_exchange "fanout" true false false false [])
    ∷ []

module _ (broker : Broker) where
  declare-Declares :
      (queue_type : String) → Declares (topology queue_type) (declare broker queue_type)
  unfolding declare
  declare-Declares queue_type = Declares-bind _ _ (Declares-invoke broker _ refl) λ _.
      Declares-bind _ _ (Declares-invoke broker _ refl) λ _.
        Declares-bind _ _ (Declares-invoke broker _ refl) λ dlq.
          Declares-bind _ _ (Declares-other broker _ refl)
            λ _. Declares-bind _ _ (Declares-invoke broker _ refl) λ q. Declares-other broker _ refl

  dial_loop-declared :
      (url : String) (attempts delay : ℕ) (log : Log)
      → declared (dial_loop broker url attempts delay log).1 ≡ declared log
  unfolding dial_loop invoke tell declared keep
  dial_loop-declared url zero delay log = refl
  dial_loop-declared url (suc zero) delay log = elim (Result-cases (broker log (Call.dial url))) [
    | inl (name, q) ↦ rw q refl
    | inr (x, q) ↦ rw q refl
  ]
  dial_loop-declared url (suc (suc more)) delay log =
      or_else-declared (Call.dial url) _ log (broker log (Call.dial url)) refl λ after.
        dial_loop-declared url (suc more) delay
          (record { call = Call.sleep delay; succeeded = true } ∷ after)

  -- Dialing that succeeds, after whatever attempts, has declared the two exchanges and the two queues,
  -- with the arguments for the queue type.
  pub dial_amqp-Declares :
      (url queue_type : String) (attempts delay : ℕ)
      → Declares (topology queue_type) (dial_amqp broker url queue_type attempts delay)
  unfolding dial_amqp
  dial_amqp-Declares url queue_type attempts delay = Declares-bind _ _ dialed λ _.
      Declares-bind _ _
        (Declares-on_error (tell Call.close_connection) _ (Declares-other broker _ refl))
        λ _.
          Declares-bind _ _
            (Declares-on_error hang_up _
              (Declares-bind _ _ (declare-Declares queue_type) λ _. Declares-other broker _ refl))
            λ _. Declares-return tt
    where
      dialed : Declares [] (dial_loop broker url attempts delay)
      dialed = Declares-none _ (dial_loop-declared url attempts delay)
