-- ===== src/Amqp/Declared.antt =====
-- Inversion of code that succeeded, and the exchanges and queues that it declared on the way.
use mathlib.Core.List.{append_assoc}
use helpdesk_microservices.Base.{
  ◌≡◌, refl, ap, sym, ◌∙◌, Bool, true, false, ◌&&◌, String, List, [], ◌∷◌, ◌++◌, Result, ok, err,
  keep, arith,
}
use helpdesk_microservices.Amqp.Defs.{
  Call, Entry, Log, Broker, Amqp, AmqpError, continue, answered, invoke, tell, after_error, or_else,
  on_error, finished, deferred, ◌>>=◌, return,
}

abbrev pub Succeeds : {A : Type 0} → Amqp A → Log → A → Log → Type 0
Succeeds m before a after = m before ≡ (ok a, after)

continue-eq-ok :
    {A B : Type 0} (f : A → Amqp B) (r : Result AmqpError A × Log) {b : B} {after : Log}
    → continue f r ≡ (ok b, after)
    → (a : A) × (mid : Log) × (r ≡ (ok a, mid)) × (f a mid ≡ (ok b, after))
continue-eq-ok f (ok a, mid) h = (a, mid, refl, h)
continue-eq-ok f (err e, mid) h = cc

pub bind-Succeeds :
    {A B : Type 0} (m : Amqp A) (f : A → Amqp B) (before after : Log) {b : B}
    → Succeeds (m >>= f) before b after
    → (a : A) × (mid : Log) × Succeeds m before a mid × Succeeds (f a) mid b after
bind-Succeeds m f before after h = continue-eq-ok f (m before) h

after_error-eq-ok :
    {A : Type 0} (cleanup : Amqp (Unit {0})) (r : Result AmqpError A × Log) {a : A} {after : Log}
    → after_error cleanup r ≡ (ok a, after)
    → r ≡ (ok a, after)
after_error-eq-ok cleanup (ok a, log) h = h
after_error-eq-ok cleanup (err e, log) h = cc

pub on_error-Succeeds :
    {A : Type 0} (cleanup : Amqp (Unit {0})) (m : Amqp A) (before after : Log) {a : A}
    → Succeeds (on_error cleanup m) before a after
    → Succeeds m before a after
on_error-Succeeds cleanup m before after h = after_error-eq-ok cleanup (m before) h

abbrev pub done : Call → Entry
done c = record { call = c; succeeded = true }

answered-eq-ok :
    (c : Call) (before : Log) (r : Result String String) {name : String} {after : Log}
    → answered c before r ≡ (ok name, after)
    → after ≡ done c ∷ before
answered-eq-ok c before (ok name) h = ground arith
answered-eq-ok c before (err x) h = cc

pub invoke-Succeeds :
    (broker : Broker) (c : Call) (before after : Log) {name : String}
    → Succeeds (invoke broker c) before name after
    → after ≡ done c ∷ before
unfolding invoke
invoke-Succeeds broker c before after h = answered-eq-ok c before (broker before c) h

abbrev pub is_declaration : Call → Bool
is_declaration (Call.exchange_declare name kind durable auto_delete internal no_wait args) = true
is_declaration (Call.queue_declare name durable auto_delete exclusive no_wait args) = true
is_declaration _ = false

abbrev pub is_declared : Entry → Bool
is_declared e = is_declaration e.call && e.succeeded

-- The exchanges and queues that were declared with success, with all their arguments.
unfoldable pub declared : Log → List Entry
unfolding keep
declared log = keep is_declared log

-- Code that declares `cs`, the newest first, wherever it succeeds.
pub record Declares {A : Type 0} (cs : List Entry) (m : Amqp A) : Type 0 where
  pub declares :
      (before after : Log) (a : A)
      → Succeeds m before a after
      → declared after ≡ cs ++ declared before

pub Declares-bind :
    {A B : Type 0} {cs ds : List Entry} (m : Amqp A) (f : A → Amqp B)
    → Declares cs m
    → ((a : A) → Declares ds (f a))
    → Declares (ds ++ cs) (m >>= f)
Declares-bind {cs = cs} {ds = ds} m f now later = record {
  declares = λ before after b h.
      let (a, mid, first, second) = bind-Succeeds m f before after h in
      (later a).declares mid after b second
      ∙ ap (λ l. ds ++ l) (now.declares before mid a first)
      ∙ sym (append_assoc ds cs (declared before));
}

pub Declares-on_error :
    {A : Type 0} {cs : List Entry} (cleanup : Amqp (Unit {0})) (m : Amqp A)
    → Declares cs m
    → Declares cs (on_error cleanup m)
Declares-on_error cleanup m d = record {
  declares =
      λ before after a h. d.declares before after a (on_error-Succeeds cleanup m before after h);
}

pub Declares-return : {A : Type 0} (a : A) → Declares [] (return a)
Declares-return a = record { declares = λ before after b h. ap (λ r. declared r.1) (sym h) }

module _ (broker : Broker) (c : Call) where
  pub Declares-invoke : is_declaration c ≡ true → Declares (done c ∷ []) (invoke broker c)
  unfolding declared keep
  Declares-invoke q = record {
    declares = λ before after name h.
        ap declared (invoke-Succeeds broker c before after h) ∙ newest before;
  }
    where
      newest : (before : Log) → declared (done c ∷ before) ≡ done c ∷ declared before
      newest before = ground arith

  pub Declares-other : is_declaration c ≡ false → Declares [] (invoke broker c)
  unfolding declared keep
  Declares-other q = record {
    declares = λ before after name h.
        ap declared (invoke-Succeeds broker c before after h) ∙ nothing before;
  }
    where
      nothing : (before : Log) → declared (done c ∷ before) ≡ declared before
      nothing before = ground arith

finished-eq-ok :
    {A : Type 0} (cleanup : Amqp (Unit {0})) (r : Result AmqpError A × Log) {a : A} {after : Log}
    → finished cleanup r ≡ (ok a, after)
    → (mid : Log) × (r ≡ (ok a, mid)) × (after ≡ (cleanup mid).1)
finished-eq-ok cleanup (ok a, log) h = (log, ap (λ r. (r.0, log)) h, sym (ap (λ r. r.1) h))
finished-eq-ok cleanup (err e, log) h = cc

-- A clean-up that declares nothing.
pub Declares-deferred :
    {A : Type 0} {cs : List Entry} (cleanup : Amqp (Unit {0})) (m : Amqp A)
    → ((log : Log) → declared (cleanup log).1 ≡ declared log)
    → Declares cs m
    → Declares cs (deferred cleanup m)
Declares-deferred cleanup m quiet d = record {
  declares = λ before after a h.
      let (mid, ran, cleaned) = finished-eq-ok cleanup (m before) h in
      ap declared cleaned ∙ quiet mid ∙ d.declares before mid a ran;
}

-- A loop that tries again declares what its further attempts declare.
pub or_else-declared :
    (c : Call) (again : Amqp String) (log : Log) (r : Result String String)
    → is_declaration c ≡ false
    → ((after : Log) → declared (again after).1 ≡ declared after)
    → declared (or_else again (answered c log r)).1 ≡ declared log
unfolding declared keep
or_else-declared c again log (ok name) q h = ground arith
or_else-declared c again log (err x) q h =
    h (record { call = c; succeeded = false } ∷ log) ∙ failure_declares
  where
    failure_declares : declared (record { call = c; succeeded = false } ∷ log) ≡ declared log
    failure_declares = ground arith

answered-declared :
    (c : Call) (log : Log) (r : Result String String)
    → is_declaration c ≡ false
    → declared (answered c log r).1 ≡ declared log
unfolding declared keep
answered-declared c log (ok name) q = ground arith
answered-declared c log (err x) q = ground arith

pub invoke-declared :
    (broker : Broker) (c : Call) (log : Log)
    → is_declaration c ≡ false
    → declared (invoke broker c log).1 ≡ declared log
unfolding invoke
invoke-declared broker c log q = answered-declared c log (broker log c) q

pub tell-declared :
    (c : Call) (log : Log) → is_declaration c ≡ false → declared (tell c log).1 ≡ declared log
unfolding tell declared keep
tell-declared c log q = ground arith

-- Code that declares nothing however it ends.
pub Declares-none :
    {A : Type 0} (m : Amqp A) → ((log : Log) → declared (m log).1 ≡ declared log) → Declares [] m
Declares-none {A} m h = record {
  declares =
      λ before after a e. ap (λ (r : Result AmqpError A × Log). declared r.1) (sym e) ∙ h before;
}
