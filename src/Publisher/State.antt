-- ===== src/Publisher/State.antt =====
-- The Publisher of publisher.go: its fields, which its mutex guards, and what is done under one lock. A
-- session is the number it was opened as, a channel of a reconnect likewise; times are milliseconds.
use helpdesk_microservices.Base.{
  ℕ, ◌+◌, ◌-◌, ◌%◌, ◌^◌, ltb, ◌==◌, Bool, true, false, not, ◌&&◌, Option, none, some, if◌then◌else◌,
}

abbrev pub reconnect_cooldown : ℕ
reconnect_cooldown = 2000

-- `last_fail` is none until an attempt has failed: the zero time is long ago.
pub record Publisher : Type 0 where
  pub cur : Option ℕ
  pub gen : ℕ
  pub inflight : Option ℕ
  pub last_fail : Option ℕ

-- NewPublisher, with the session that was dialed at the start, or none.
unfoldable pub new_publisher : Option ℕ → Publisher
new_publisher none = record { cur = none; gen = 0; inflight = none; last_fail = none }
new_publisher (some s) = record { cur = some s; gen = 1; inflight = none; last_fail = none }

abbrev pub is_set : Option ℕ → Bool
is_set none = false
is_set (some s) = true

-- There is a session, and another than the one that failed.
unfoldable pub is_replaced : Publisher → (failed_gen : ℕ) → Bool
is_replaced p failed_gen = is_set p.cur && not (p.gen == failed_gen)

unfoldable pub is_cooling : Option ℕ → (now : ℕ) → Bool
is_cooling none now = false
is_cooling (some failed) now = ltb (now - failed) reconnect_cooldown

-- How the first critical section of `reconnect` ends.
pub data Begun : Type 0 where
  already_replaced : Begun
  must_wait : (channel : ℕ) → Begun
  cools_down : Begun
  may_dial : Begun

-- From the first lock of `reconnect` to its release, at the time `now`, with the channel that it would make.
unfoldable pub begin_reconnect : Publisher → (failed_gen now channel : ℕ) → Publisher × Begun
unfolding is_replaced is_cooling
begin_reconnect p failed_gen now channel =
    if is_replaced p failed_gen then (p, already_replaced) else elim p.inflight [
      | some running ↦ (p, must_wait running)
      | none ↦
          if is_cooling p.last_fail now
          then (p, cools_down)
          else (record p { inflight = some channel }, may_dial)
    ]

-- The second critical section: the dialed session, if there is one, becomes the current one, and the one
-- before it is returned, to be closed.
unfoldable pub end_reconnect : Publisher → (dialed : Option ℕ) → (now : ℕ) → Publisher × Option ℕ
end_reconnect p none now = (record p { last_fail = some now; inflight = none }, none)
end_reconnect p (some s) now =
    (record p { cur = some s; gen = (p.gen + 1) % 2 ^ 64; inflight = none }, p.cur)
