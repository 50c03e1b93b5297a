-- ===== src/Publisher/Steps.antt =====
-- Publish and reconnect of publisher.go as steps of goroutines that share one Publisher, in any order: one
-- step is what runs between two releases of the mutex, or one call of a session.
use helpdesk_microservices.Base.{ℕ, suc, ◌≡◌, Bool, true, false, Option, none, some, if◌then◌else◌}
use mathlib.Core.Logic.{ite}
use native.Mathlib.Decide.{ℕ_discrete}
use helpdesk_microservices.Publisher.State.{
  Publisher, new_publisher, is_replaced, Begun, begin_reconnect, end_reconnect,
}

-- Where a goroutine stands in Publish, with what is live there. `again` tells the reconnect after a publish
-- that failed from the one before the first.
pub data Pc : Type 0 where
  started : Pc
  reconnects : (failed_gen : ℕ) → (again : Bool) → Pc
  waits : (failed_gen channel : ℕ) → (again : Bool) → Pc
  dials : (channel : ℕ) → (again : Bool) → Pc
  has_dialed : (channel : ℕ) → (again : Bool) → (dialed : Option ℕ) → Pc
  closes : (old : ℕ) → (again : Bool) → Pc
  resumes : (again : Bool) → Pc
  publishes : (session gen : ℕ) → Pc
  retries : (session : ℕ) → Pc
  returned : Pc
  -- a nil session was called
  panicked : Pc

abbrev pub update {ℓ} : {A : Type ℓ} → (ℕ → A) → ℕ → A → ℕ → A
update f i a j = ite (ℕ_discrete i j) a (f j)

-- The publisher, the sessions opened and those closed, the channels made and those closed.
pub record Shared : Type 0 where
  pub publisher : Publisher
  pub opened : ℕ
  pub closed : ℕ → Bool
  pub made : ℕ
  pub ended : ℕ → Bool

-- Publish reads the current session, first and after a reconnect.
unfoldable pub on_start : Publisher → Pc
on_start p = elim p.cur [ some s ↦ Pc.publishes s p.gen | none ↦ Pc.reconnects p.gen false ]

unfoldable pub on_resume : Publisher → (again : Bool) → Pc
on_resume p again = elim p.cur [
  | some s ↦ if again then Pc.retries s else Pc.publishes s p.gen
  | none ↦ Pc.panicked
]

-- An error of `reconnect` ends Publish, which returns nil.
unfoldable pub after_begin : Begun → (failed_gen channel : ℕ) → (again : Bool) → Pc
after_begin Begun.already_replaced failed_gen channel again = Pc.resumes again
after_begin (Begun.must_wait running) failed_gen channel again = Pc.waits failed_gen running again
after_begin Begun.cools_down failed_gen channel again = Pc.returned
after_begin Begun.may_dial failed_gen channel again = Pc.dials channel again

unfoldable pub after_wait : Publisher → (failed_gen : ℕ) → (again : Bool) → Pc
unfolding is_replaced
after_wait p failed_gen again = if is_replaced p failed_gen then Pc.resumes again else Pc.returned

unfoldable pub after_end : (dialed old : Option ℕ) → (again : Bool) → Pc
after_end none old again = Pc.returned
after_end (some s) none again = Pc.resumes again
after_end (some s) (some old) again = Pc.closes old again

-- One step of one goroutine: the shared state and its place before, and after. The dial, the calls of a
-- session and the waits end as the environment chooses.
pub data Move (s : Shared) : Pc → Shared → Pc → Type 0 where
  reads : Move s Pc.started s (on_start s.publisher)
  begins :
      (now : ℕ) {failed_gen : ℕ} {again : Bool}
      → Move s
          (Pc.reconnects failed_gen again)
          (record s {
            publisher = (begin_reconnect s.publisher failed_gen now s.made).0;
            made = suc s.made;
          })
          (after_begin
            (begin_reconnect s.publisher failed_gen now s.made).1
            failed_gen
            s.made
            again)
  times_out :
      {failed_gen channel : ℕ} {again : Bool}
      → Move s (Pc.waits failed_gen channel again) s Pc.returned
  wakes :
      {failed_gen channel : ℕ} {again : Bool}
      → s.ended channel ≡ true
      → Move s (Pc.waits failed_gen channel again) s (after_wait s.publisher failed_gen again)
  opens :
      {channel : ℕ} {again : Bool}
      → Move s
          (Pc.dials channel again)
          (record s { opened = suc s.opened })
          (Pc.has_dialed channel again (some s.opened))
  dial_fails :
      {channel : ℕ} {again : Bool}
      → Move s (Pc.dials channel again) s (Pc.has_dialed channel again none)
  ends :
      (now : ℕ) {channel : ℕ} {again : Bool} {dialed : Option ℕ}
      → Move s
          (Pc.has_dialed channel again dialed)
          (record s {
            publisher = (end_reconnect s.publisher dialed now).0;
            ended = update s.ended channel true;
          })
          (after_end dialed (end_reconnect s.publisher dialed now).1 again)
  closes_old :
      {old : ℕ} {again : Bool}
      → Move s
          (Pc.closes old again)
          (record s { closed = update s.closed old true })
          (Pc.resumes again)
  goes_on : {again : Bool} → Move s (Pc.resumes again) s (on_resume s.publisher again)
  hands_over : {session gen : ℕ} → Move s (Pc.publishes session gen) s Pc.returned
  publish_fails : {session gen : ℕ} → Move s (Pc.publishes session gen) s (Pc.reconnects gen true)
  retry_ends : {session : ℕ} → Move s (Pc.retries session) s Pc.returned

pub record System : Type 0 where
  pub shared : Shared
  pub pc : ℕ → Pc

pub data Step (s : System) : System → Type 0 where
  pick :
      (i : ℕ) {g : Shared} {p : Pc}
      → Move s.shared (s.pc i) g p
      → Step s (record { shared = g; pc = update s.pc i p })

-- After NewPublisher, which opened one session or none.
abbrev pub initial : (dialed : Bool) → System
initial dialed = record {
  shared = record {
    publisher = new_publisher (if dialed then some 0 else none);
    opened = if dialed then 1 else 0;
    closed = λ _. false;
    made = 0;
    ended = λ _. false;
  };
  pc = λ _. Pc.started;
}

pub data Reachable (dialed : Bool) : System → Type 0 where
  start : Reachable dialed (initial dialed)
  next : {s t : System} → Reachable dialed s → Step s t → Reachable dialed t
