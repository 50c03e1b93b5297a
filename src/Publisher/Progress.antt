-- ===== src/Publisher/Progress.antt =====
-- Publish comes to an end: each of its goroutines takes a bounded number of steps, and is never stuck.
use helpdesk_microservices.Base.{
  ℕ, ◌+◌, ◌≤◌, ◌≡◌, ◌≢◌, ◌⊎◌, inl, inr, refl, Bool, List, [], ◌∷◌, ◌==◌, count_by, arith,
  if◌then◌else◌,
}
use helpdesk_microservices.Publisher.State.{begin_reconnect, end_reconnect}
use helpdesk_microservices.Publisher.Steps.{
  Pc, update, Shared, on_start, on_resume, after_begin, after_wait, after_end, Move, System, Step,
  initial, Reachable,
}
use helpdesk_microservices.Publisher.Flight.{Reachable-calm}

-- The steps that a goroutine has left, at most.
rank : Pc → ℕ
rank Pc.started = 13
rank (Pc.reconnects failed_gen again) = if again then 6 else 12
rank (Pc.waits failed_gen channel again) = if again then 5 else 11
rank (Pc.dials channel again) = if again then 5 else 11
rank (Pc.has_dialed channel again dialed) = if again then 4 else 10
rank (Pc.closes old again) = if again then 3 else 9
rank (Pc.resumes again) = if again then 2 else 8
rank (Pc.publishes session gen) = 7
rank (Pc.retries session) = 1
rank Pc.returned = 0
rank Pc.panicked = 0

Move-rank : {s t : Shared} {p p' : Pc} → Move s p t p' → rank p' + 1 ≤ rank p
unfolding rank on_start on_resume after_begin after_wait after_end begin_reconnect end_reconnect
Move-rank Move.reads = ground arith
Move-rank (Move.begins now) = ground arith
Move-rank Move.times_out = ground arith
Move-rank (Move.wakes woken) = ground arith
Move-rank Move.opens = ground arith
Move-rank Move.dial_fails = ground arith
Move-rank (Move.ends now) = ground arith
Move-rank Move.closes_old = ground arith
Move-rank Move.goes_on = ground arith
Move-rank Move.hands_over = ground arith
Move-rank Move.publish_fails = ground arith
Move-rank Move.retry_ends = ground arith

-- An execution, with the goroutines that moved, the last one first.
pub data Run (s : System) : List ℕ → System → Type 0 where
  still : Run s [] s
  moved :
      {turns : List ℕ} {t : System} {g : Shared} {p : Pc}
      → Run s turns t
      → (i : ℕ) → Move t.shared (t.pc i) g p
      → Run s (i ∷ turns) (record { shared = g; pc = update t.pc i p })

pub Run-Reachable :
    (dialed : Bool) {turns : List ℕ} {t : System}
    → Run (initial dialed) turns t
    → Reachable dialed t
Run-Reachable dialed Run.still = Reachable.start
Run-Reachable dialed (Run.moved r i mv) = Reachable.next (Run-Reachable dialed r) (Step.pick i mv)

abbrev pub turns_of : ℕ → List ℕ → ℕ
turns_of i turns = count_by (λ j. j == i) turns

Run-rank :
    {s t : System} {turns : List ℕ}
    → Run s turns t
    → (i : ℕ) → turns_of i turns + rank (t.pc i) ≤ rank (s.pc i)
unfolding count_by
Run-rank Run.still i = omega arith
Run-rank (Run.moved r j mv) i = ground (arith, Run-rank r i, Move-rank mv)

-- What a goroutine can do next.
pub record CanMove (s : Shared) (p : Pc) : Type 0 where
  pub after : Shared
  pub place : Pc
  pub move : Move s p after place

can : {s t : Shared} {p p' : Pc} → Move s p t p' → CanMove s p
can mv = record { after = _; place = _; move = mv }

has_next : (s : Shared) (p : Pc) → p ≢ Pc.panicked → (p ≡ Pc.returned) ⊎ CanMove s p
has_next s Pc.started h = inr (can Move.reads)
has_next s (Pc.reconnects failed_gen again) h = inr (can (Move.begins 0))
has_next s (Pc.waits failed_gen channel again) h = inr (can Move.times_out)
has_next s (Pc.dials channel again) h = inr (can Move.dial_fails)
has_next s (Pc.has_dialed channel again dialed) h = inr (can (Move.ends 0))
has_next s (Pc.closes old again) h = inr (can Move.closes_old)
has_next s (Pc.resumes again) h = inr (can Move.goes_on)
has_next s (Pc.publishes session gen) h = inr (can Move.hands_over)
has_next s (Pc.retries session) h = inr (can Move.retry_ends)
has_next s Pc.returned h = inl refl
has_next s Pc.panicked h = absurd (h refl)

-- Publish ends: in every execution a goroutine takes at most thirteen steps, and as long as it
-- has not returned it can take one, whatever the others do and have done; so it never calls a
-- nil session.
pub Publish_ends :
    (dialed : Bool) (turns : List ℕ) (t : System) (i : ℕ)
    → Run (initial dialed) turns t
    → (turns_of i turns ≤ 13) × ((t.pc i ≡ Pc.returned) ⊎ CanMove t.shared (t.pc i))
unfolding rank
Publish_ends dialed turns t i r = (
  omega (arith, Run-rank r i),
  has_next t.shared (t.pc i) (Reachable-calm dialed (Run-Reachable dialed r) i),
)
