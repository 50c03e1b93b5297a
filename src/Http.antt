-- ===== src/Http.antt =====
-- Requests and replies as the handlers see them, and pkg/response. A header that is missing is the
-- empty text. Gin's routing, JSON coding and form parsing are outside: a body arrives decoded.
use mathlib.Core.Path.{◌≡◌, refl}
use helpdesk_microservices.Base.{
  ℕ, Bool, Bool-cases, inl, inr, Option, none, some, String, List, [], Result, ok, err, ◌>>=◌,
  arith, if◌then◌else◌,
}

pub record Headers : Type 0 where
  pub authorization : String
  pub request_id : String
  pub internal_secret : String
  pub user_id : String
  pub user_role : String

-- response.Error: the status code, the message and the error code.
pub record Refusal : Type 0 where
  pub code : ℕ
  pub message : String
  pub error : String

abbrev pub refusal : ℕ → String → String → Refusal
refusal code message error = record { code = code; message = message; error = error }

-- What a request leads to: response.Success of a payload, or response.Error; the database after it;
-- the messages handed to the publisher.
pub record Served (Db Message A : Type 0) : Type 0 where
  pub reply : Result Refusal A
  pub state : Db
  pub published : List Message

-- A handler that refuses changes nothing and publishes nothing.
abbrev pub serve :
    {Db Message A : Type 0} → Db → Result Refusal (A × Db × List Message) → Served Db Message A
serve d (ok (a, e, sent)) = record { reply = ok a; state = e; published = sent }
serve d (err r) = record { reply = err r; state = d; published = [] }

-- The errors of a use case, told to the client.
abbrev pub answer : {E A : Type 0} → (E → Refusal) → Result E A → Result Refusal A
answer f (ok a) = ok a
answer f (err e) = err (f e)

-- A refusal where there is no value.
abbrev pub or_refuse : {A : Type 0} → Option A → Refusal → Result Refusal A
or_refuse none r = err r
or_refuse (some a) r = ok a

-- `ShouldBindJSON`: a body that is absent or malformed is `none`; the binding tags are `valid`.
abbrev pub bind_json : {A : Type 0} → (A → Bool) → Refusal → Option A → Result Refusal A
bind_json valid r none = err r
bind_json valid r (some a) = if valid a then ok a else err r

-- Either the request is refused and the state is as before, or it is answered.
pub serve-state :
    {Db Message A : Type 0} (P : Db → Type 0) (d : Db) (r : Result Refusal (A × Db × List Message))
    → P d
    → ((a : A) (e : Db) (sent : List Message) → r ≡ ok (a, e, sent) → P e)
    → P (serve d r).state
serve-state P d (ok (a, e, sent)) old new = new a e sent refl
serve-state P d (err r) old new = old

-- Inversion of an answered use case, and of a body that is bound.
pub answered-eq-ok :
    {E A B : Type 0} (f : E → Refusal) (r : Result E A) (k : A → Result Refusal B) {b : B}
    → (answer f r >>= k) ≡ ok b
    → (a : A) × (r ≡ ok a) × (k a ≡ ok b)
answered-eq-ok f (ok a) k h = (a, refl, h)
answered-eq-ok f (err e) k h = cc

pub answer-eq-ok :
    {E A : Type 0} (f : E → Refusal) (r : Result E A) {a : A} → answer f r ≡ ok a → r ≡ ok a
answer-eq-ok f (ok a) h = ground arith
answer-eq-ok f (err e) h = cc

pub required-eq-ok :
    {A B : Type 0} (o : Option A) (r : Refusal) (k : A → Result Refusal B) {b : B}
    → (or_refuse o r >>= k) ≡ ok b
    → (a : A) × (o ≡ some a) × (k a ≡ ok b)
required-eq-ok (some a) r k h = (a, refl, h)
required-eq-ok none r k h = cc

-- The request that a handler has is the body's.
pub bind_json-eq-ok :
    {A B : Type 0} (valid : A → Bool) (r : Refusal) (body : Option A) (k : A → Result Refusal B)
    {b : B}
    → (bind_json valid r body >>= k) ≡ ok b
    → (a : A) × (body ≡ some a) × (k a ≡ ok b)
bind_json-eq-ok valid r none k h = cc
bind_json-eq-ok valid r (some a) k h = elim (Bool-cases (valid a)) [
  | inl fits ↦ (a, refl, rw fits at h)
  | inr wrong ↦ absurd (let no_way = rw wrong at h in cc)
]
