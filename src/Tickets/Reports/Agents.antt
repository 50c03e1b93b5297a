-- ===== src/Tickets/Reports/Agents.antt =====
-- The report on the agents.
use helpdesk_microservices.Base.{
  ℕ, ◌+◌, ◌≤◌, ◌≡◌, refl, sym, ap, ◌∙◌, subst, Bool, false, ◌&&◌, ◌==◌, inl, inr, Option-cases,
  Option, none, some, String, List, [], ◌∷◌, keep, count_by, sum_by, Result, ok, ok-injective,
  bind-eq-ok, arith, if◌then◌else◌,
}
use helpdesk_microservices.Db.{DbError, IsSorted, desc}
use helpdesk_microservices.Db.Sorting.{sort_rows-IsSorted, sort_rows-same, sum-sort_rows}
use helpdesk_microservices.Http.{Headers}
use helpdesk_microservices.Tickets.Domain.{Ticket}
use helpdesk_microservices.Tickets.Store.{TicketStore}
use helpdesk_microservices.Tickets.Reports.Defs.{
  AgentStat, is_done, when, count_for, group_agents, assigned_between, agent_performance,
  report_failed, report_from, report_to, get_agent_performance,
}
use helpdesk_microservices.Tickets.Reports.Totals.{admin-answered}

-- The tickets of an agent.
abbrev pub is_agents : ℕ → Ticket → Bool
is_agents agent t = elim t.assigned_agent_id [ none ↦ false | some a ↦ a == agent ]

abbrev pub is_row_of : ℕ → AgentStat → Bool
is_row_of agent a = a.agent_id == agent

abbrev pub assigned_count : ℕ → AgentStat → ℕ
assigned_count agent a = when (is_row_of agent a) a.total_assigned

abbrev pub resolved_count : ℕ → AgentStat → ℕ
resolved_count agent a = when (is_row_of agent a) a.total_resolved

module _ (agent : ℕ) where
  assigned-count_for :
      (other : ℕ) (t : Ticket) (rows : List AgentStat)
      → sum_by (assigned_count agent) (count_for other t rows)
        ≡ when (other == agent) 1 + sum_by (assigned_count agent) rows
  unfolding sum_by count_for
  assigned-count_for other t [] = ground arith
  assigned-count_for other t (a ∷ rows) = ground (arith, assigned-count_for other t rows)

  resolved-count_for :
      (other : ℕ) (t : Ticket) (rows : List AgentStat)
      → sum_by (resolved_count agent) (count_for other t rows)
        ≡ when (other == agent && is_done t) 1 + sum_by (resolved_count agent) rows
  unfolding sum_by count_for
  resolved-count_for other t [] = ground arith
  resolved-count_for other t (a ∷ rows) = ground (arith, resolved-count_for other t rows)

  rows-count_for :
      (other : ℕ) (t : Ticket) (rows : List AgentStat)
      → count_by (is_row_of agent) (count_for other t rows) ≡ (
          if other == agent && count_by (is_row_of agent) rows == 0
          then 1
          else count_by (is_row_of agent) rows)
  unfolding count_by count_for
  rows-count_for other t [] = ground arith
  rows-count_for other t (a ∷ rows) = ground (arith, rows-count_for other t rows)

  record Tallied (ts : List Ticket) : Type 0 where
    assigned : sum_by (assigned_count agent) (group_agents ts) ≡ count_by (is_agents agent) ts
    resolved :
        sum_by (resolved_count agent) (group_agents ts)
        ≡ count_by (λ t. is_agents agent t && is_done t) ts
    once : count_by (is_row_of agent) (group_agents ts) ≤ 1

  group_agents-Tallied : (ts : List Ticket) → Tallied ts
  unfolding group_agents count_by sum_by
  group_agents-Tallied [] = record { assigned = refl; resolved = refl; once = omega arith }
  group_agents-Tallied (t ∷ ts) =
      let rest = group_agents-Tallied ts in
      elim (Option-cases t.assigned_agent_id) [
        | inl nobody ↦ record {
          assigned = ground (arith, nobody, rest.assigned);
          resolved = ground (arith, nobody, rest.resolved);
          once = ground (arith, nobody, rest.once);
        }
        | inr (other, someone) ↦ record {
          assigned =
              ground (arith, someone, rest.assigned, assigned-count_for other t (group_agents ts));
          resolved =
              ground (arith, someone, rest.resolved, resolved-count_for other t (group_agents ts));
          once = ground (arith, someone, rest.once, rows-count_for other t (group_agents ts));
        }
      ]

module _ {Db : Type 0} (store : TicketStore Db) (raw : Db → Result DbError (List Ticket))
    (reads : (d : Db) (rows : List Ticket) → raw d ≡ ok rows → rows ≡ store.tickets.rows d)
    (parse_date : String → Option ℕ) (d : Db) (now : ℕ) (h : Headers) where
  -- What the report says of one agent.
  pub record Performance (from to : ℕ) (rows : List AgentStat) (agent : ℕ) : Type 0 where
    pub busiest_first : IsSorted (λ (a : AgentStat). a.total_assigned) desc rows
    pub one_row : count_by (is_row_of agent) rows ≤ 1
    pub assigned :
        sum_by (assigned_count agent) rows
        ≡ count_by (is_agents agent) (keep (assigned_between from to) (store.tickets.rows d))
    pub resolved :
        sum_by (resolved_count agent) rows
        ≡ count_by
            (λ t. is_agents agent t && is_done t)
            (keep (assigned_between from to) (store.tickets.rows d))

  -- The report on the agents is given to an admin only. It has one row at most for an agent,
  -- the busiest first, and says for each how many of the tickets assigned in the range are the
  -- agent's, and how many of those are resolved or closed. A raw statement reads the rows of
  -- the table.
  pub get_agent_performance-Performance :
      (from to : String) (rows : List AgentStat) (agent : ℕ)
      → get_agent_performance store raw parse_date d now h from to ≡ ok rows
      → (h.user_role ≡ "admin")
        × Performance (report_from parse_date now from) (report_to parse_date now to) rows agent
  unfolding get_agent_performance agent_performance
  get_agent_performance-Performance from to rows agent e =
      let (admin, found) = admin-answered report_failed h _ rows e in
      let (tickets, read, last) = bind-eq-ok (raw d) _ found in
      let in_range =
        keep (assigned_between (report_from parse_date now from) (report_to parse_date now to)) in
      let size = λ (a : AgentStat). a.total_assigned in
      let groups = group_agents (in_range tickets) in
      let tally = group_agents-Tallied agent (in_range tickets) in
      let same = ok-injective last in
      let source = reads d tickets read in
      (
        admin,
        record {
          busiest_first = subst (IsSorted size desc) same (sort_rows-IsSorted size desc groups);
          one_row =
              subst (λ rs. count_by (is_row_of agent) rs ≤ 1) same
                (omega (arith, sort_rows-same size desc groups (is_row_of agent), tally.once));
          assigned =
              ap (sum_by (assigned_count agent)) (sym same)
              ∙ sum-sort_rows size desc (assigned_count agent) groups
              ∙ tally.assigned
              ∙ ap (λ ts. count_by (is_agents agent) (in_range ts)) source;
          resolved =
              ap (sum_by (resolved_count agent)) (sym same)
              ∙ sum-sort_rows size desc (resolved_count agent) groups
              ∙ tally.resolved
              ∙ ap (λ ts. count_by (λ t. is_agents agent t && is_done t) (in_range ts)) source;
        },
      )
