-- ===== src/Publisher/Examples.antt =====
-- Runs of the publisher in which one goroutine reconnects.
use native.Mathlib.Decide.{ℕ_discrete}
use helpdesk_microservices.Base.{
  ℕ, zero, suc, none, ◌≤◌, ◌≡◌, ◌↔◌, ◌⊎◌, refl, Bool, true, false, some, List, [], ◌∷◌, arith,
  count_by,
}
use helpdesk_microservices.Publisher.State.{
  new_publisher, is_replaced, is_cooling, begin_reconnect, end_reconnect,
}
use helpdesk_microservices.Publisher.Steps.{
  Pc, System, Move, on_start, on_resume, after_begin, after_end, initial,
}
use helpdesk_microservices.Publisher.Flight.{single_flight}
use helpdesk_microservices.Publisher.Sessions.{in_hand, idle-open_iff}
use helpdesk_microservices.Publisher.Progress.{Run, Run-Reachable, turns_of, CanMove, Publish_ends}

-- A system that was reached, with the run that reached it.
record Reached (dialed : Bool) (turns : List ℕ) : Type 0 where
  last : System
  run : Run (initial dialed) turns last

-- Goroutine 3 finds no session, and dials.
abbrev dialing : Reached false (3 ∷ 3 ∷ [])
unfolding ℕ_discrete on_start after_begin begin_reconnect is_replaced is_cooling new_publisher
dialing = record { last = _; run = Run.moved (Run.moved Run.still 3 Move.reads) 3 (Move.begins 0) }

single_flight_example : ◌≡◌ {A = ℕ} 3 3
unfolding ℕ_discrete on_start after_begin begin_reconnect is_replaced is_cooling new_publisher
single_flight_example =
    single_flight false dialing.last 3 3 0 0 (Run-Reachable false dialing.run) refl refl

-- The publish of goroutine 0 fails; it dials, installs the new session, closes the old one and tries again.
abbrev replaced : Reached true (1 ∷ 0 ∷ 0 ∷ 0 ∷ 0 ∷ 0 ∷ 0 ∷ 0 ∷ 0 ∷ [])
unfolding ℕ_discrete on_start on_resume after_begin after_end begin_reconnect end_reconnect
    is_replaced is_cooling new_publisher
replaced = record {
  last = _;
  run =
      Run.moved
        (Run.moved
          (Run.moved
            (Run.moved
              (Run.moved
                (Run.moved
                  (Run.moved (Run.moved (Run.moved Run.still 0 Move.reads) 0 Move.publish_fails) 0
                    (Move.begins 5))
                  0 Move.opens)
                0 (Move.ends 9))
              0 Move.closes_old)
            0 Move.goes_on)
          0 Move.retry_ends)
        1 Move.reads;
}

replaced_idle : (i : ℕ) → in_hand (replaced.last.pc i) ≡ none
unfolding ℕ_discrete on_start on_resume after_begin after_end begin_reconnect end_reconnect
    is_replaced is_cooling new_publisher
replaced_idle zero = refl
replaced_idle (suc zero) = refl
replaced_idle (suc (suc i)) = ground arith

idle-open_iff_example :
    (replaced.last.shared.closed 1 ≡ false) ↔ (replaced.last.shared.publisher.cur ≡ some 1)
unfolding ℕ_discrete on_start on_resume after_begin after_end begin_reconnect end_reconnect
    is_replaced is_cooling new_publisher
idle-open_iff_example =
    idle-open_iff true replaced.last 1 (Run-Reachable true replaced.run) replaced_idle (omega arith)

Publish_ends_example :
    (turns_of 0 (1 ∷ 0 ∷ 0 ∷ 0 ∷ 0 ∷ 0 ∷ 0 ∷ 0 ∷ 0 ∷ []) ≤ 13)
    × ((replaced.last.pc 0 ≡ Pc.returned) ⊎ CanMove replaced.last.shared (replaced.last.pc 0))
unfolding count_by
Publish_ends_example =
    Publish_ends true (1 ∷ 0 ∷ 0 ∷ 0 ∷ 0 ∷ 0 ∷ 0 ∷ 0 ∷ 0 ∷ []) replaced.last 0 replaced.run
