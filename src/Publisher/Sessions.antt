-- ===== src/Publisher/Sessions.antt =====
-- No session is leaked: one that is open is the publisher's, or a goroutine's that will install or close it.
use helpdesk_microservices.Base.{
  ℕ, ◌<◌, ◌≤◌, ◌≡◌, ◌≢◌, ◌↔◌, ◌⊎◌, inl, inr, refl, Bool, true, false, Option, none, some, arith,
}
use native.Mathlib.Decide.{ℕ_discrete, dec_lt}
use helpdesk_microservices.Publisher.State.{new_publisher, begin_reconnect, end_reconnect}
use helpdesk_microservices.Publisher.Steps.{
  Pc, update, Shared, on_start, on_resume, after_begin, after_wait, after_end, Move, System, Step,
  initial, Reachable,
}

-- The session that a goroutine has opened and not installed, or has replaced and not closed.
abbrev pub in_hand : Pc → Option ℕ
in_hand (Pc.has_dialed channel again dialed) = dialed
in_hand (Pc.closes old again) = some old
in_hand _ = none

pub record Accounted (s : Shared) (pc : ℕ → Pc) : Type 0 where
  pub current : (x : ℕ) → s.publisher.cur ≡ some x → (x < s.opened) × (s.closed x ≡ false)
  pub carried :
      (i x : ℕ)
      → in_hand (pc i) ≡ some x
      → (x < s.opened) × (s.closed x ≡ false) × (s.publisher.cur ≢ some x)
  pub distinct : (i j x : ℕ) → in_hand (pc i) ≡ some x → in_hand (pc j) ≡ some x → i ≡ j
  pub past : (x : ℕ) → s.closed x ≡ true → x < s.opened
  pub covered :
      (x : ℕ)
      → x < s.opened
      → s.closed x ≡ false
      → (s.publisher.cur ≡ some x) ⊎ ((i : ℕ) × (in_hand (pc i) ≡ some x))

module _ {s : Shared} {pc : ℕ → Pc} (a : Accounted s pc) (i : ℕ) where
  open a use {current, carried, distinct, past, covered}

  Move-current :
      {p p' : Pc} {t : Shared}
      → Move s p t p'
      → pc i ≡ p
      → (x : ℕ) → t.publisher.cur ≡ some x
      → (x < t.opened) × (t.closed x ≡ false)
  unfolding on_start on_resume after_begin after_wait after_end begin_reconnect end_reconnect
  Move-current Move.reads e x h = ground (arith, current x, carried i x)
  Move-current (Move.begins now) e x h = ground (arith, current x, carried i x)
  Move-current Move.times_out e x h = ground (arith, current x, carried i x)
  Move-current (Move.wakes woken) e x h = ground (arith, current x, carried i x)
  Move-current Move.opens e x h = ground (arith, current x, carried i x)
  Move-current Move.dial_fails e x h = ground (arith, current x, carried i x)
  Move-current (Move.ends now {channel = d} {dialed = o}) e x h =
      ground (arith, current x, carried i x)
  Move-current (Move.closes_old {old = o}) e x h = ground (arith, current x, carried i x)
  Move-current Move.goes_on e x h = ground (arith, current x, carried i x)
  Move-current Move.hands_over e x h = ground (arith, current x, carried i x)
  Move-current Move.publish_fails e x h = ground (arith, current x, carried i x)
  Move-current Move.retry_ends e x h = ground (arith, current x, carried i x)

  Move-past :
      {p p' : Pc} {t : Shared}
      → Move s p t p'
      → pc i ≡ p
      → (x : ℕ) → t.closed x ≡ true
      → x < t.opened
  unfolding on_start on_resume after_begin after_wait after_end begin_reconnect end_reconnect
  Move-past Move.reads e x h = ground (arith, past x, carried i x)
  Move-past (Move.begins now) e x h = ground (arith, past x, carried i x)
  Move-past Move.times_out e x h = ground (arith, past x, carried i x)
  Move-past (Move.wakes woken) e x h = ground (arith, past x, carried i x)
  Move-past Move.opens e x h = ground (arith, past x, carried i x)
  Move-past Move.dial_fails e x h = ground (arith, past x, carried i x)
  Move-past (Move.ends now {channel = d} {dialed = o}) e x h = ground (arith, past x, carried i x)
  Move-past (Move.closes_old {old = o}) e x h = ground (arith, past x, carried i x)
  Move-past Move.goes_on e x h = ground (arith, past x, carried i x)
  Move-past Move.hands_over e x h = ground (arith, past x, carried i x)
  Move-past Move.publish_fails e x h = ground (arith, past x, carried i x)
  Move-past Move.retry_ends e x h = ground (arith, past x, carried i x)

  Move-distinct :
      {p p' : Pc} {t : Shared}
      → Move s p t p'
      → pc i ≡ p
      → (j k x : ℕ) → in_hand (update pc i p' j) ≡ some x
      → in_hand (update pc i p' k) ≡ some x
      → j ≡ k
  unfolding on_start on_resume after_begin after_wait after_end begin_reconnect end_reconnect
  Move-distinct Move.reads e j k x h g =
      ground (arith, distinct j k x, current x, carried j x, carried k x)
  Move-distinct (Move.begins now) e j k x h g =
      ground (arith, distinct j k x, current x, carried j x, carried k x)
  Move-distinct Move.times_out e j k x h g =
      ground (arith, distinct j k x, current x, carried j x, carried k x)
  Move-distinct (Move.wakes woken) e j k x h g =
      ground (arith, distinct j k x, current x, carried j x, carried k x)
  Move-distinct Move.opens e j k x h g =
      ground (arith, distinct j k x, current x, carried j x, carried k x)
  Move-distinct Move.dial_fails e j k x h g =
      ground (arith, distinct j k x, current x, carried j x, carried k x)
  Move-distinct (Move.ends now {channel = d} {dialed = o}) e j k x h g =
      ground (arith, distinct j k x, current x, carried j x, carried k x)
  Move-distinct (Move.closes_old {old = o}) e j k x h g =
      ground (arith, distinct j k x, current x, carried j x, carried k x)
  Move-distinct Move.goes_on e j k x h g =
      ground (arith, distinct j k x, current x, carried j x, carried k x)
  Move-distinct Move.hands_over e j k x h g =
      ground (arith, distinct j k x, current x, carried j x, carried k x)
  Move-distinct Move.publish_fails e j k x h g =
      ground (arith, distinct j k x, current x, carried j x, carried k x)
  Move-distinct Move.retry_ends e j k x h g =
      ground (arith, distinct j k x, current x, carried j x, carried k x)

  Move-carried :
      {p p' : Pc} {t : Shared}
      → Move s p t p'
      → pc i ≡ p
      → (j x : ℕ) → in_hand (update pc i p' j) ≡ some x
      → (x < t.opened) × (t.closed x ≡ false) × (t.publisher.cur ≢ some x)
  unfolding on_start on_resume after_begin after_wait after_end begin_reconnect end_reconnect
  Move-carried Move.reads e j x h = ground (arith, carried j x)
  Move-carried (Move.begins now) e j x h = ground (arith, carried j x)
  Move-carried Move.times_out e j x h = ground (arith, carried j x)
  Move-carried (Move.wakes woken) e j x h = ground (arith, carried j x)
  Move-carried Move.opens e j x h = ground (arith, carried j x, past x, current x)
  Move-carried Move.dial_fails e j x h = ground (arith, carried j x)
  Move-carried (Move.ends now {channel = d} {dialed = o}) e j x h =
      ground (arith, carried j x, carried i x, current x, distinct i j x)
  Move-carried (Move.closes_old {old = o}) e j x h =
      ground (arith, carried j x, carried i x, distinct i j x)
  Move-carried Move.goes_on e j x h = ground (arith, carried j x)
  Move-carried Move.hands_over e j x h = ground (arith, carried j x)
  Move-carried Move.publish_fails e j x h = ground (arith, carried j x)
  Move-carried Move.retry_ends e j x h = ground (arith, carried j x)

  -- Who accounts for a session after a move: the one who did, or the goroutine that moved.
  abbrev Covered : Shared → (ℕ → Pc) → ℕ → Type 0
  Covered t pc' x = (t.publisher.cur ≡ some x) ⊎ ((j : ℕ) × (in_hand (pc' j) ≡ some x))

  Move-keeps :
      {p p' : Pc} {t : Shared}
      → Move s p t p'
      → pc i ≡ p
      → (x : ℕ) → t.closed x ≡ false
      → s.publisher.cur ≡ some x
      → Covered t (update pc i p') x
  unfolding on_start on_resume after_begin after_wait after_end begin_reconnect end_reconnect
  Move-keeps Move.reads e x unclosed h = inl (ground arith)
  Move-keeps (Move.begins now) e x unclosed h = inl (ground arith)
  Move-keeps Move.times_out e x unclosed h = inl (ground arith)
  Move-keeps (Move.wakes woken) e x unclosed h = inl (ground arith)
  Move-keeps Move.opens e x unclosed h = inl (ground arith)
  Move-keeps Move.dial_fails e x unclosed h = inl (ground arith)
  Move-keeps (Move.ends now {dialed = none}) e x unclosed h = inl (ground arith)
  Move-keeps (Move.ends now {dialed = some y}) e x unclosed h = inr (i, ground arith)
  Move-keeps (Move.closes_old {old = o}) e x unclosed h = inl (ground arith)
  Move-keeps Move.goes_on e x unclosed h = inl (ground arith)
  Move-keeps Move.hands_over e x unclosed h = inl (ground arith)
  Move-keeps Move.publish_fails e x unclosed h = inl (ground arith)
  Move-keeps Move.retry_ends e x unclosed h = inl (ground arith)

  Move-hands :
      {p p' : Pc} {t : Shared}
      → Move s p t p'
      → pc i ≡ p
      → (x j : ℕ) → t.closed x ≡ false
      → in_hand (pc j) ≡ some x
      → Covered t (update pc i p') x
  unfolding on_start on_resume after_begin after_wait after_end begin_reconnect end_reconnect
  Move-hands Move.reads e x j unclosed h = inr (j, ground arith)
  Move-hands (Move.begins now) e x j unclosed h = inr (j, ground arith)
  Move-hands Move.times_out e x j unclosed h = inr (j, ground arith)
  Move-hands (Move.wakes woken) e x j unclosed h = inr (j, ground arith)
  Move-hands Move.opens e x j unclosed h = inr (j, ground arith)
  Move-hands Move.dial_fails e x j unclosed h = inr (j, ground arith)
  Move-hands (Move.ends now {dialed = none}) e x j unclosed h = inr (j, ground arith)
  Move-hands (Move.ends now {dialed = some y}) e x j unclosed h = elim (ℕ_discrete i j) [
    | yes same ↦ inl (ground arith)
    | no other ↦ inr (j, ground arith)
  ]
  Move-hands (Move.closes_old {old = o}) e x j unclosed h = inr (j, ground arith)
  Move-hands Move.goes_on e x j unclosed h = inr (j, ground arith)
  Move-hands Move.hands_over e x j unclosed h = inr (j, ground arith)
  Move-hands Move.publish_fails e x j unclosed h = inr (j, ground arith)
  Move-hands Move.retry_ends e x j unclosed h = inr (j, ground arith)

  -- A session that a move opens is in the hands of the goroutine that moved.
  Move-opens :
      {p p' : Pc} {t : Shared}
      → Move s p t p'
      → (x : ℕ) → x < t.opened
      → s.opened ≤ x
      → in_hand p' ≡ some x
  Move-opens Move.reads x h g = ground arith
  Move-opens (Move.begins now) x h g = ground arith
  Move-opens Move.times_out x h g = ground arith
  Move-opens (Move.wakes woken) x h g = ground arith
  Move-opens Move.opens x h g = ground arith
  Move-opens Move.dial_fails x h g = ground arith
  Move-opens (Move.ends now) x h g = ground arith
  Move-opens Move.closes_old x h g = ground arith
  Move-opens Move.goes_on x h g = ground arith
  Move-opens Move.hands_over x h g = ground arith
  Move-opens Move.publish_fails x h g = ground arith
  Move-opens Move.retry_ends x h g = ground arith

  -- A session that is open after a move, and was opened before it, was not closed before it.
  Move-unclosed :
      {p p' : Pc} {t : Shared} → Move s p t p' → (x : ℕ) → t.closed x ≡ false → s.closed x ≡ false
  Move-unclosed Move.reads x h = ground arith
  Move-unclosed (Move.begins now) x h = ground arith
  Move-unclosed Move.times_out x h = ground arith
  Move-unclosed (Move.wakes woken) x h = ground arith
  Move-unclosed Move.opens x h = ground arith
  Move-unclosed Move.dial_fails x h = ground arith
  Move-unclosed (Move.ends now) x h = ground arith
  Move-unclosed Move.closes_old x h = ground arith
  Move-unclosed Move.goes_on x h = ground arith
  Move-unclosed Move.hands_over x h = ground arith
  Move-unclosed Move.publish_fails x h = ground arith
  Move-unclosed Move.retry_ends x h = ground arith

  Move-Covered :
      {p p' : Pc} {t : Shared}
      → Move s p t p'
      → pc i ≡ p
      → (x : ℕ) → x < t.opened
      → t.closed x ≡ false
      → Covered t (update pc i p') x
  Move-Covered {p' = p'} mv e x opened unclosed = elim (dec_lt x s.opened) [
    | no fresh ↦ let mine = Move-opens mv x opened (omega arith) in inr (i, ground arith)
    | yes old ↦ elim (covered x old (Move-unclosed mv x unclosed)) [
      | inl h ↦ Move-keeps mv e x unclosed h
      | inr (j, h) ↦ Move-hands mv e x j unclosed h
    ]
  ]

Step-Accounted : {s t : System} → Step s t → Accounted s.shared s.pc → Accounted t.shared t.pc
Step-Accounted (Step.pick i mv) a = record {
  current = Move-current a i mv refl;
  carried = Move-carried a i mv refl;
  distinct = Move-distinct a i mv refl;
  past = Move-past a i mv refl;
  covered = Move-Covered a i mv refl;
}

initial-Accounted : (dialed : Bool) → Accounted (initial dialed).shared (initial dialed).pc
unfolding new_publisher
initial-Accounted true = record {
  current = λ x h. ground arith;
  carried = λ i x h. cc;
  distinct = λ i j x h g. cc;
  past = λ x h. cc;
  covered = λ x h g. inl (ground arith);
}
initial-Accounted false = record {
  current = λ x h. cc;
  carried = λ i x h. cc;
  distinct = λ i j x h g. cc;
  past = λ x h. cc;
  covered = λ x h g. absurd (omega arith);
}

Reachable-Accounted : (dialed : Bool) {s : System} → Reachable dialed s → Accounted s.shared s.pc
Reachable-Accounted dialed Reachable.start = initial-Accounted dialed
Reachable-Accounted dialed (Reachable.next r st) = Step-Accounted st (Reachable-Accounted dialed r)

-- However the goroutines that publish interleave, where none is between opening and installing
-- a session, or between replacing and closing one, the sessions that were opened and are not
-- closed are the publisher's current one, if it has one, and no other.
pub idle-open_iff :
    (dialed : Bool) (s : System) (x : ℕ)
    → Reachable dialed s
    → ((i : ℕ) → in_hand (s.pc i) ≡ none)
    → x < s.shared.opened
    → (s.shared.closed x ≡ false) ↔ (s.shared.publisher.cur ≡ some x)
idle-open_iff dialed s x r idle opened =
    let a = Reachable-Accounted dialed r in
    (
      λ unclosed. elim (a.covered x opened unclosed) [
        | inl h ↦ h
        | inr (i, h) ↦ ground (arith, idle i)
      ],
      λ h. (a.current x h).1,
    )
