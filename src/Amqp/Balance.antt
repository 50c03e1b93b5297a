-- ===== src/Amqp/Balance.antt =====
-- How many connections and channels a piece of code opens more than it closes.
use helpdesk_microservices.Base.{
  ℕ, suc, ◌+◌, ◌≡◌, refl, Bool, true, false, ◌&&◌, ◌||◌, not, ◌∷◌, if◌then◌else◌, String, count_by,
  Result, ok, err, arith,
}
use helpdesk_microservices.Amqp.Defs.{
  Call, Log, Broker, Amqp, AmqpError, continue, answered, invoke, tell, after_error, or_else,
  on_error, finished, deferred, ◌>>=◌, return, throw,
}

abbrev pub is_dial : Call → Bool
is_dial (Call.dial url) = true
is_dial _ = false

abbrev pub is_open_channel : Call → Bool
is_open_channel Call.open_channel = true
is_open_channel _ = false

abbrev pub is_close_channel : Call → Bool
is_close_channel Call.close_channel = true
is_close_channel _ = false

abbrev pub is_close_connection : Call → Bool
is_close_connection Call.close_connection = true
is_close_connection _ = false

abbrev pub tally : (Call → Bool) → Log → ℕ
tally p log = count_by (λ e. p e.call && e.succeeded) log

-- How many connections and channels are open.
pub record Held : Type 0 where
  pub connections : ℕ
  pub channels : ℕ

abbrev pub held : (connections channels : ℕ) → Held
held n m = record { connections = n; channels = m }

-- What the calls between two logs leave open of what was open, counted by those that succeeded.
pub record Balance (h k : Held) (before after : Log) : Type 0 where
  pub connections :
      h.connections + tally is_dial after + tally is_close_connection before
      ≡ k.connections + tally is_dial before + tally is_close_connection after
  pub channels :
      h.channels + tally is_open_channel after + tally is_close_channel before
      ≡ k.channels + tally is_open_channel before + tally is_close_channel after

-- `k` is open where the code succeeds, and `e` where it fails.
abbrev pub Outcome : {A : Type 0} → (h k e : Held) → Log → Result AmqpError A × Log → Type 0
Outcome h k e before (ok a, after) = Balance h k before after
Outcome h k e before (err x, after) = Balance h e before after

-- Code that starts with `h` open, whatever was called before.
pub record Opens {A : Type 0} (h k e : Held) (code : Amqp A) : Type 0 where
  pub outcome : (log : Log) → Outcome h k e log (code log)

Balance-trans : {h k l : Held} {a b c : Log} → Balance h k a b → Balance k l b c → Balance h l a c
Balance-trans p q = omega arith

Outcome-trans :
    {A : Type 0} {h k : Held} (l e : Held) {a b : Log} (r : Result AmqpError A × Log)
    → Balance h k a b
    → Outcome k l e b r
    → Outcome h l e a r
Outcome-trans l e (ok a, log) p q = Balance-trans p q
Outcome-trans l e (err x, log) p q = Balance-trans p q

continue-Outcome :
    {A B : Type 0} (h : Held) {k l e : Held} (f : A → Amqp B)
    → ((a : A) → Opens k l e (f a))
    → (log : Log) (r : Result AmqpError A × Log) → Outcome h k e log r
    → Outcome h l e log (continue f r)
continue-Outcome h {l = l} {e = e} f later log (ok a, after) o =
    Outcome-trans l e (f a after) o ((later a).outcome after)
continue-Outcome h f later log (err x, after) o = o

pub Opens-bind :
    {A B : Type 0} {h k l e : Held} (m : Amqp A) (f : A → Amqp B)
    → Opens h k e m
    → ((a : A) → Opens k l e (f a))
    → Opens h l e (m >>= f)
Opens-bind {h = h} m f now later = record {
  outcome = λ log. continue-Outcome h f later log (m log) (now.outcome log);
}

after_cleanup :
    {h e : Held} (f : Held) {a b : Log} (r : Result AmqpError (Unit {0}) × Log)
    → Balance h e a b
    → Outcome e f f b r
    → Balance h f a r.1
after_cleanup f (ok a, later) p q = Balance-trans p q
after_cleanup f (err x, later) p q = Balance-trans p q

after_error-Outcome :
    {A : Type 0} (h k : Held) {e f : Held} (cleanup : Amqp (Unit {0}))
    → Opens e f f cleanup
    → (log : Log) (r : Result AmqpError A × Log) → Outcome h k e log r
    → Outcome h k f log (after_error cleanup r)
after_error-Outcome h k cleanup c log (ok a, after) o = o
after_error-Outcome h k {f = f} cleanup c log (err x, after) o =
    after_cleanup f (cleanup after) o (c.outcome after)

pub Opens-on_error :
    {A : Type 0} {h k e f : Held} (cleanup : Amqp (Unit {0})) (m : Amqp A)
    → Opens e f f cleanup
    → Opens h k e m
    → Opens h k f (on_error cleanup m)
Opens-on_error {h = h} {k = k} cleanup m c o = record {
  outcome = λ log. after_error-Outcome h k cleanup c log (m log) (o.outcome log);
}

or_else-Outcome :
    {A : Type 0} {h : Held} (k e : Held) (again : Amqp A)
    → Opens h k e again
    → (log : Log) (r : Result AmqpError A × Log) → Outcome h k h log r
    → Outcome h k e log (or_else again r)
or_else-Outcome k e again o log (ok a, after) p = p
or_else-Outcome k e again o log (err x, after) p =
    Outcome-trans k e (again after) p (o.outcome after)

pub Opens-or_else :
    {A : Type 0} {h k e : Held} (m again : Amqp A)
    → Opens h k h m
    → Opens h k e again
    → Opens h k e (λ log. or_else again (m log))
Opens-or_else {k = k} {e = e} m again o p = record {
  outcome = λ log. or_else-Outcome k e again p log (m log) (o.outcome log);
}

pub Opens-return : {A : Type 0} (h e : Held) (a : A) → Opens h h e (return a)
Opens-return h e a = record { outcome = λ log. record { connections = refl; channels = refl } }

pub Opens-throw : {A : Type 0} (h k : Held) (x : AmqpError) → Opens h k h (throw {A = A} x)
Opens-throw h k x = record { outcome = λ log. record { connections = refl; channels = refl } }

-- A call that opens and closes nothing.
abbrev pub is_quiet : Call → Bool
is_quiet c = not (is_dial c || is_open_channel c || is_close_channel c || is_close_connection c)

tally-quiet :
    (c : Call) (b : Bool) (log : Log)
    → is_quiet c ≡ true
    → (h : Held) → Balance h h log (record { call = c; succeeded = b } ∷ log)
unfolding count_by
tally-quiet c b log q h = record { connections = ground arith; channels = ground arith }

answered-Outcome :
    (h k : Held) (c : Call) (log : Log) (r : Result String String)
    → ((b : Bool) → Balance h (if b then k else h) log (record { call = c; succeeded = b } ∷ log))
    → Outcome h k h log (answered c log r)
answered-Outcome h k c log (ok name) b = b true
answered-Outcome h k c log (err x) b = b false

module _ (broker : Broker) where
  pub Opens-invoke : (h : Held) (c : Call) → is_quiet c ≡ true → Opens h h h (invoke broker c)
  unfolding invoke
  Opens-invoke h c q = record {
    outcome = λ log. answered-Outcome h h c log (broker log c) (λ b. quietly log b);
  }
    where
      quietly :
          (log : Log) (b : Bool)
          → Balance h (if b then h else h) log (record { call = c; succeeded = b } ∷ log)
      quietly log true = tally-quiet c true log q h
      quietly log false = tally-quiet c false log q h

  dial-Balance :
      (n m : ℕ) (url : String) (log : Log) (b : Bool)
      → Balance
          (held n m)
          (if b then held (suc n) m else held n m)
          log
          (record { call = Call.dial url; succeeded = b } ∷ log)
  unfolding count_by
  dial-Balance n m url log true = record { connections = omega arith; channels = refl }
  dial-Balance n m url log false = record { connections = refl; channels = refl }

  pub Opens-dial :
      (n m : ℕ) (url : String)
      → Opens (held n m) (held (suc n) m) (held n m) (invoke broker (Call.dial url))
  unfolding invoke
  Opens-dial n m url = record {
    outcome = λ log.
        answered-Outcome (held n m) (held (suc n) m) (Call.dial url) log
          (broker log (Call.dial url)) (dial-Balance n m url log);
  }

  channel-Balance :
      (n m : ℕ) (log : Log) (b : Bool)
      → Balance
          (held n m)
          (if b then held n (suc m) else held n m)
          log
          (record { call = Call.open_channel; succeeded = b } ∷ log)
  unfolding count_by
  channel-Balance n m log true = record { connections = refl; channels = omega arith }
  channel-Balance n m log false = record { connections = refl; channels = refl }

  pub Opens-open_channel :
      (n m : ℕ) → Opens (held n m) (held n (suc m)) (held n m) (invoke broker Call.open_channel)
  unfolding invoke
  Opens-open_channel n m = record {
    outcome = λ log.
        answered-Outcome (held n m) (held n (suc m)) Call.open_channel log
          (broker log Call.open_channel) (channel-Balance n m log);
  }

pub Opens-tell : (h : Held) (c : Call) → is_quiet c ≡ true → Opens h h h (tell c)
unfolding tell
Opens-tell h c q = record { outcome = λ log. tally-quiet c true log q h }

pub Opens-close_channel :
    (n m : ℕ) (e : Held) → Opens (held n (suc m)) (held n m) e (tell Call.close_channel)
unfolding tell count_by
Opens-close_channel n m e = record {
  outcome = λ log. record { connections = refl; channels = omega arith };
}

pub Opens-close_connection :
    (n m : ℕ) (e : Held) → Opens (held (suc n) m) (held n m) e (tell Call.close_connection)
unfolding tell count_by
Opens-close_connection n m e = record {
  outcome = λ log. record { connections = omega arith; channels = refl };
}

finished-Outcome :
    {A : Type 0} (h : Held) {k l : Held} (cleanup : Amqp (Unit {0}))
    → Opens k l l cleanup
    → (log : Log) (r : Result AmqpError A × Log) → Outcome h k k log r
    → Outcome h l l log (finished cleanup r)
finished-Outcome h {l = l} cleanup c log (ok a, after) o =
    after_cleanup l (cleanup after) o (c.outcome after)
finished-Outcome h {l = l} cleanup c log (err x, after) o =
    after_cleanup l (cleanup after) o (c.outcome after)

pub Opens-deferred :
    {A : Type 0} {h k l : Held} (cleanup : Amqp (Unit {0})) (m : Amqp A)
    → Opens k l l cleanup
    → Opens h k k m
    → Opens h l l (deferred cleanup m)
Opens-deferred {h = h} cleanup m c o = record {
  outcome = λ log. finished-Outcome h cleanup c log (m log) (o.outcome log);
}
