-- ===== src/Tickets/Machine.antt =====
-- The table `allowedTransitions` of ticket_usecase.go as a type: the moves that it allows.
use mathlib.Core.HLevel.{Σ_prop_path, ×_prop, hedberg}
use mathlib.Core.Path.{fun_ext}
use std.Univalence.{h_prop_ext}
use helpdesk_microservices.Base.{
  ◌≡◌, refl, sym, ap, ◌∙◌, true, ◌=s=◌, eq_iff, inl, inr, Bool-cases, String, if◌then◌else◌,
}
use helpdesk_microservices.Tickets.Domain.{
  status_open, status_assigned, status_in_progress, status_pending, status_resolved,
}
use helpdesk_microservices.Tickets.Usecase.{allowed_transitions, contains_text}
use helpdesk_microservices.Tickets.Lifecycle.{
  Phase, Legal, status_name, allowed-sound, allowed_complete,
}

-- Between which texts the table allows a move.
abbrev pub AllowedMove : (from_status to_status : String) → Type 0
AllowedMove s t = contains_text (allowed_transitions s) t ≡ true

abbrev pub Edge : Type 0
Edge = (ends : Phase × Phase) × Legal ends.0 ends.1

abbrev pub IsNamed : (from_status to_status : String) → Edge → Type 0
IsNamed s t m = (s ≡ status_name m.0.0) × (t ≡ status_name m.0.1)

-- Two texts are the names of the ends of one of the seven moves.
abbrev pub MachineMove : (from_status to_status : String) → Type 0
MachineMove s t = (m : Edge) × IsNamed s t m

abbrev phase_named : String → Phase
phase_named s =
    if s =s= status_open
    then Phase.opened
    else if s =s= status_assigned
    then Phase.assigned
    else if s =s= status_in_progress
    then Phase.in_progress
    else if s =s= status_pending
    then Phase.pending
    else if s =s= status_resolved
    then Phase.resolved
    else Phase.closed

phase_named-status_name : (p : Phase) → phase_named (status_name p) ≡ p
phase_named-status_name Phase.opened = refl
phase_named-status_name Phase.assigned = refl
phase_named-status_name Phase.in_progress = refl
phase_named-status_name Phase.pending = refl
phase_named-status_name Phase.resolved = refl
phase_named-status_name Phase.closed = refl

status_name-injective : (p q : Phase) → status_name p ≡ status_name q → p ≡ q
status_name-injective p q e =
    sym (phase_named-status_name p) ∙ ap phase_named e ∙ phase_named-status_name q

Legal-IsProp : (p q : Phase) → IsProp (Legal p q)
Legal-IsProp p q Legal.start Legal.start = refl
Legal-IsProp p q Legal.park Legal.park = refl
Legal-IsProp p q Legal.resume Legal.resume = refl
Legal-IsProp p q Legal.resolve Legal.resolve = refl
Legal-IsProp p q Legal.resolve_parked Legal.resolve_parked = refl
Legal-IsProp p q Legal.close Legal.close = refl
Legal-IsProp p q Legal.reopen Legal.reopen = refl

text-IsSet : IsSet String
text-IsSet = hedberg decide
  where
    decide : (s t : String) → Dec (s ≡ t)
    decide s t = elim (Bool-cases (s =s= t)) [
      | inl same ↦ yes ((eq_iff s t).0 same)
      | inr other ↦ no (λ e. let test = (eq_iff s t).1 e in cc)
    ]

Edge-ext : (m n : Edge) → m.0.0 ≡ n.0.0 → m.0.1 ≡ n.0.1 → m ≡ n
Edge-ext m n from to = Σ_prop_path (λ x. Legal-IsProp x.0 x.1) (cc (from, to))

-- The texts determine the move.
MachineMove-IsProp : (s t : String) → IsProp (MachineMove s t)
MachineMove-IsProp s t m n =
    Σ_prop_path {B = IsNamed s t} (λ x. ×_prop (text-IsSet _ _) (text-IsSet _ _)) {u = m} {v = n}
      (Edge-ext m.0 n.0 (status_name-injective m.0.0.0 n.0.0.0 (sym m.1.0 ∙ n.1.0))
        (status_name-injective m.0.0.1 n.0.0.1 (sym m.1.1 ∙ n.1.1)))

AllowedMove-MachineMove_at : (s t : String) → AllowedMove s t ≡ MachineMove s t
AllowedMove-MachineMove_at s t =
    h_prop_ext (hlevel) (MachineMove-IsProp s t)
      (λ allowed.
        let m = allowed-sound s t allowed in
        (((m.source, m.target), m.legal), (m.named_from, m.named_to)))
      (λ m. rw (m.1.0, m.1.1) (allowed_complete m.0.1))

-- For all pairs of texts, the type of the proofs that the table of transitions allows to go
-- from the one to the other is the type of the moves of the status machine with these names:
-- the table allows the seven moves of the machine, each in one way, and no other pair.
pub AllowedMove-MachineMove : AllowedMove ≡ MachineMove
AllowedMove-MachineMove = fun_ext (λ s. fun_ext (λ t. AllowedMove-MachineMove_at s t))
