-- ===== src/Publisher/Flight.antt =====
-- At most one goroutine reconnects at a time, and none calls a nil session.
use helpdesk_microservices.Base.{ℕ, ◌≡◌, ◌≢◌, refl, Bool, true, false, Option, none, some, arith}
use helpdesk_microservices.Publisher.State.{Publisher, is_set, begin_reconnect, end_reconnect}
use helpdesk_microservices.Publisher.Steps.{
  Pc, update, Shared, on_start, on_resume, after_begin, after_wait, after_end, Move, System, Step,
  Reachable,
}

-- The channel that the goroutine which reconnects has made.
abbrev pub in_flight : Pc → Option ℕ
in_flight (Pc.dials channel again) = some channel
in_flight (Pc.has_dialed channel again dialed) = some channel
in_flight _ = none

-- A goroutine whose reconnect succeeded, and that reads the session next.
abbrev pub needs_session : Pc → Bool
needs_session (Pc.closes old again) = true
needs_session (Pc.resumes again) = true
needs_session _ = false

abbrev has_panicked : Pc → Bool
has_panicked Pc.panicked = true
has_panicked _ = false

-- What each goroutine's place says of the publisher.
pub record Flight (p : Publisher) (pc : ℕ → Pc) : Type 0 where
  pub owned : (i c : ℕ) → in_flight (pc i) ≡ some c → p.inflight ≡ some c
  pub alone : (i j c : ℕ) → in_flight (pc i) ≡ some c → in_flight (pc j) ≡ some c → i ≡ j
  pub ready : (i : ℕ) → needs_session (pc i) ≡ true → is_set p.cur ≡ true
  pub sound : (i : ℕ) → has_panicked (pc i) ≡ false

module _ {s : Shared} {pc : ℕ → Pc} (f : Flight s.publisher pc) (i : ℕ) where
  open f use {owned, alone, ready, sound}

  Move-owned :
      {p p' : Pc} {t : Shared}
      → Move s p t p'
      → pc i ≡ p
      → (j c : ℕ) → in_flight (update pc i p' j) ≡ some c
      → t.publisher.inflight ≡ some c
  unfolding on_start on_resume after_begin after_wait after_end begin_reconnect end_reconnect
  Move-owned Move.reads e j c h = ground (arith, owned j c)
  Move-owned (Move.begins now) e j c h = ground (arith, owned j c)
  Move-owned Move.times_out e j c h = ground (arith, owned j c)
  Move-owned (Move.wakes woken) e j c h = ground (arith, owned j c)
  Move-owned Move.opens e j c h = ground (arith, owned j c, owned i c)
  Move-owned Move.dial_fails e j c h = ground (arith, owned j c, owned i c)
  Move-owned (Move.ends now {channel = d} {dialed = o}) e j c h =
      ground (arith, owned j c, owned i d, alone i j c)
  Move-owned Move.closes_old e j c h = ground (arith, owned j c)
  Move-owned Move.goes_on e j c h = ground (arith, owned j c)
  Move-owned Move.hands_over e j c h = ground (arith, owned j c)
  Move-owned Move.publish_fails e j c h = ground (arith, owned j c)
  Move-owned Move.retry_ends e j c h = ground (arith, owned j c)

  Move-alone :
      {p p' : Pc} {t : Shared}
      → Move s p t p'
      → pc i ≡ p
      → (j k c : ℕ) → in_flight (update pc i p' j) ≡ some c
      → in_flight (update pc i p' k) ≡ some c
      → j ≡ k
  unfolding on_start on_resume after_begin after_wait after_end begin_reconnect end_reconnect
  Move-alone Move.reads e j k c h g = ground (arith, alone j k c)
  Move-alone (Move.begins now) e j k c h g = ground (arith, alone j k c, owned j c, owned k c)
  Move-alone Move.times_out e j k c h g = ground (arith, alone j k c)
  Move-alone (Move.wakes woken) e j k c h g = ground (arith, alone j k c)
  Move-alone Move.opens e j k c h g = ground (arith, alone j k c, alone i k c, alone j i c)
  Move-alone Move.dial_fails e j k c h g = ground (arith, alone j k c, alone i k c, alone j i c)
  Move-alone (Move.ends now {channel = d} {dialed = o}) e j k c h g = ground (arith, alone j k c)
  Move-alone Move.closes_old e j k c h g = ground (arith, alone j k c)
  Move-alone Move.goes_on e j k c h g = ground (arith, alone j k c)
  Move-alone Move.hands_over e j k c h g = ground (arith, alone j k c)
  Move-alone Move.publish_fails e j k c h g = ground (arith, alone j k c)
  Move-alone Move.retry_ends e j k c h g = ground (arith, alone j k c)

  Move-ready :
      {p p' : Pc} {t : Shared}
      → Move s p t p'
      → pc i ≡ p
      → (j : ℕ) → needs_session (update pc i p' j) ≡ true
      → is_set t.publisher.cur ≡ true
  unfolding on_start on_resume after_begin after_wait after_end begin_reconnect end_reconnect
  Move-ready Move.reads e j h = ground (arith, ready j)
  Move-ready (Move.begins now) e j h = ground (arith, ready j)
  Move-ready Move.times_out e j h = ground (arith, ready j)
  Move-ready (Move.wakes woken) e j h = ground (arith, ready j)
  Move-ready Move.opens e j h = ground (arith, ready j)
  Move-ready Move.dial_fails e j h = ground (arith, ready j)
  Move-ready (Move.ends now {channel = d} {dialed = o}) e j h = ground (arith, ready j)
  Move-ready Move.closes_old e j h = ground (arith, ready j)
  Move-ready Move.goes_on e j h = ground (arith, ready j)
  Move-ready Move.hands_over e j h = ground (arith, ready j)
  Move-ready Move.publish_fails e j h = ground (arith, ready j)
  Move-ready Move.retry_ends e j h = ground (arith, ready j)

  Move-sound :
      {p p' : Pc} {t : Shared}
      → Move s p t p'
      → pc i ≡ p
      → (j : ℕ) → has_panicked (update pc i p' j) ≡ false
  unfolding on_start on_resume after_begin after_wait after_end begin_reconnect end_reconnect
  Move-sound Move.reads e j = ground (arith, sound j, ready i)
  Move-sound (Move.begins now) e j = ground (arith, sound j, ready i)
  Move-sound Move.times_out e j = ground (arith, sound j, ready i)
  Move-sound (Move.wakes woken) e j = ground (arith, sound j, ready i)
  Move-sound Move.opens e j = ground (arith, sound j, ready i)
  Move-sound Move.dial_fails e j = ground (arith, sound j, ready i)
  Move-sound (Move.ends now {channel = d} {dialed = o}) e j = ground (arith, sound j, ready i)
  Move-sound Move.closes_old e j = ground (arith, sound j, ready i)
  Move-sound Move.goes_on e j = ground (arith, sound j, ready i)
  Move-sound Move.hands_over e j = ground (arith, sound j, ready i)
  Move-sound Move.publish_fails e j = ground (arith, sound j, ready i)
  Move-sound Move.retry_ends e j = ground (arith, sound j, ready i)

Step-Flight :
    {s t : System} → Step s t → Flight s.shared.publisher s.pc → Flight t.shared.publisher t.pc
Step-Flight (Step.pick i mv) f = record {
  owned = Move-owned f i mv refl;
  alone = Move-alone f i mv refl;
  ready = Move-ready f i mv refl;
  sound = Move-sound f i mv refl;
}

Reachable-Flight :
    (dialed : Bool) {s : System} → Reachable dialed s → Flight s.shared.publisher s.pc
Reachable-Flight dialed Reachable.start = record {
  owned = λ i c h. cc;
  alone = λ i j c h g. cc;
  ready = λ i h. cc;
  sound = λ i. refl;
}
Reachable-Flight dialed (Reachable.next r st) = Step-Flight st (Reachable-Flight dialed r)

-- However the goroutines that publish interleave, two that are in the middle of a reconnect,
-- from the moment that one has been allowed to dial, are the same one.
pub single_flight :
    (dialed : Bool) (s : System) (i j c d : ℕ)
    → Reachable dialed s
    → in_flight (s.pc i) ≡ some c
    → in_flight (s.pc j) ≡ some d
    → i ≡ j
single_flight dialed s i j c d r h g =
    let f = Reachable-Flight dialed r in f.alone i j c h (ground (arith, f.owned i c, f.owned j d))

pub Reachable-calm :
    (dialed : Bool) {s : System} → Reachable dialed s → (k : ℕ) → s.pc k ≢ Pc.panicked
Reachable-calm dialed r k panics = ground (arith, (Reachable-Flight dialed r).sound k)
