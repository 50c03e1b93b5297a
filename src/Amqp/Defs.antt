-- ===== src/Amqp/Defs.antt =====
-- Calls, the log of the calls, and the code that makes them as a monad over that log.
use helpdesk_microservices.Base.{ℕ, Bool, true, false, String, List, ◌∷◌, Result, ok, err}

-- `amqp091.Table`
abbrev pub Arguments : Type 0
Arguments = List (String × String)

pub data Call : Type 0 where
  dial : (url : String) → Call
  sleep : (milliseconds : ℕ) → Call
  open_channel : Call
  exchange_declare :
      (name kind : String) → (durable auto_delete internal no_wait : Bool) → Arguments → Call
  queue_declare :
      (name : String) → (durable auto_delete exclusive no_wait : Bool) → Arguments → Call
  queue_bind : (queue key exchange : String) → (no_wait : Bool) → Call
  confirm : (no_wait : Bool) → Call
  publish :
      (exchange key : String) → (mandatory immediate : Bool) → (content_type body : String) → Call
  consume :
      (queue consumer : String) → (auto_ack exclusive no_local no_wait : Bool) → Arguments → Call
  ack : (multiple : Bool) → (tag : ℕ) → Call
  nack : (multiple requeue : Bool) → (tag : ℕ) → Call
  close_channel : Call
  close_connection : Call

-- A failed call, with its message; and the nil connection that a loop of no attempts leaves.
pub data AmqpError : Type 0 where
  refused : (message : String) → AmqpError
  nil_connection : AmqpError

-- A call that was made, and whether it succeeded.
pub record Entry : Type 0 where
  pub call : Call
  pub succeeded : Bool

-- The newest call first.
abbrev pub Log : Type 0
Log = List Entry

-- The answer to a call: a text, which is the queue's name for `QueueDeclare`, or an error.
abbrev pub Broker : Type 0
Broker = Log → Call → Result String String

abbrev pub Amqp : Type 0 → Type 0
Amqp A = Log → Result AmqpError A × Log

abbrev pub continue :
    {A B : Type 0} → (A → Amqp B) → Result AmqpError A × Log → Result AmqpError B × Log
continue f (ok a, log) = f a log
continue f (err e, log) = (err e, log)

infixl 5 ◌>>=◌ ◌>>◌
abbrev pub ◌>>=◌ : {A B : Type 0} → Amqp A → (A → Amqp B) → Amqp B
◌>>=◌ m f log = continue f (m log)

abbrev pub ◌>>◌ : {A B : Type 0} → Amqp A → Amqp B → Amqp B
m >> k = m >>= λ _. k

abbrev pub return : {A : Type 0} → A → Amqp A
return a log = (ok a, log)

abbrev pub throw : {A : Type 0} → AmqpError → Amqp A
throw e log = (err e, log)

abbrev pub answered : Call → Log → Result String String → Result AmqpError String × Log
answered c log (ok name) = (ok name, record { call = c; succeeded = true } ∷ log)
answered c log (err message) =
    (err (AmqpError.refused message), record { call = c; succeeded = false } ∷ log)

-- A call whose error the code looks at.
unfoldable pub invoke : Broker → Call → Amqp String
invoke broker c log = answered c log (broker log c)

-- A call whose error the code ignores, and sleeping.
unfoldable pub tell : Call → Amqp (Unit {0})
tell c log = (ok tt, record { call = c; succeeded = true } ∷ log)

abbrev pub after_error :
    {A : Type 0} → Amqp (Unit {0}) → Result AmqpError A × Log → Result AmqpError A × Log
after_error cleanup (ok a, log) = (ok a, log)
after_error cleanup (err e, log) = (err e, (cleanup log).1)

-- The clean-up runs where the code fails, and its error is the one returned.
abbrev pub on_error : {A : Type 0} → Amqp (Unit {0}) → Amqp A → Amqp A
on_error cleanup m log = after_error cleanup (m log)

abbrev pub finished :
    {A : Type 0} → Amqp (Unit {0}) → Result AmqpError A × Log → Result AmqpError A × Log
finished cleanup (r, log) = (r, (cleanup log).1)

-- `defer`: the clean-up runs however the code ends.
abbrev pub deferred : {A : Type 0} → Amqp (Unit {0}) → Amqp A → Amqp A
deferred cleanup m log = finished cleanup (m log)

-- Another attempt after an error.
abbrev pub or_else : {A : Type 0} → Amqp A → Result AmqpError A × Log → Result AmqpError A × Log
or_else again (ok a, log) = (ok a, log)
or_else again (err e, log) = again log
