-- ===== src/Tickets/Reports/Defs.antt =====
-- The two raw SQL statements are executed by the database; what they mean is written out here, over the
-- rows that they read.
use helpdesk_microservices.Base.{
  ℕ, suc, ◌+◌, ◌-◌, ◌*◌, ◌^◌, leb, ltb, ◌==◌, ◌=s=◌, Bool, false, not, ◌&&◌, ◌||◌, Option, none,
  some, String, List, [], ◌∷◌, map, keep, Result, ok, ◌>>=◌, ◌>>◌, guard, if◌then◌else◌, ℤ, pos,
  negsuc, wrap64,
}
use helpdesk_microservices.Db.{DbError, Query, asc, desc}
use helpdesk_microservices.Db.Sorting.{sort_rows}
use helpdesk_microservices.Numeral.{atoi}
use helpdesk_microservices.Http.{Headers, Refusal, refusal, answer}
use helpdesk_microservices.Tickets.Domain.{Ticket, status_resolved, status_closed}
use helpdesk_microservices.Tickets.Store.{TicketStore, is_null}

-- A period is the day that it begins on, which the report writes as YYYY-MM-DD.
pub record PeriodCount : Type 0 where
  pub period : ℕ
  pub status : String
  pub count : ℕ

-- The average resolution time is (ends - starts) / timed in seconds, and 0 where `timed` is 0.
pub record AgentStat : Type 0 where
  pub agent_id : ℕ
  pub total_assigned : ℕ
  pub total_resolved : ℕ
  pub timed : ℕ
  pub starts : ℕ
  pub ends : ℕ

pub record CriticalTicketRow : Type 0 where
  pub id : ℕ
  pub title : String
  pub created_at : ℕ

pub record CriticalTrend : Type 0 where
  pub count : ℕ
  pub tickets : List CriticalTicketRow

-- Any other grouping is by day.
unfoldable pub valid_group_by : String → String
valid_group_by g = if g =s= "day" || g =s= "week" || g =s= "month" || g =s= "year" then g else "day"

abbrev pub between : (from to at : ℕ) → Bool
between from to at = leb from at && leb at to

abbrev pub is_in : (period : ℕ) → (status : String) → PeriodCount → Bool
is_in period status r = r.period == period && r.status =s= status

-- One more ticket in its group.
unfoldable pub count_in : (period : ℕ) → (status : String) → List PeriodCount → List PeriodCount
count_in period status [] = (record { period = period; status = status; count = 1 }) ∷ []
count_in period status (r ∷ rows) =
    if is_in period status r
    then (record r { count = suc r.count }) ∷ rows
    else r ∷ count_in period status rows

-- `GROUP BY period, status` with `COUNT(*)`; `date_trunc` is the database's.
unfoldable pub group_periods : (date_trunc : ℕ → ℕ) → List Ticket → List PeriodCount
unfolding count_in
group_periods date_trunc [] = []
group_periods date_trunc (t ∷ ts) =
    count_in (date_trunc t.created_at) t.status (group_periods date_trunc ts)

abbrev pub is_done : Ticket → Bool
is_done t = t.status =s= status_resolved || t.status =s= status_closed

abbrev pub when : Bool → ℕ → ℕ
when b n = if b then n else 0

abbrev pub or_zero : Option ℕ → ℕ
or_zero none = 0
or_zero (some n) = n

abbrev pub is_timed : Ticket → Bool
is_timed t = not (is_null t.resolved_at) && not (is_null t.assigned_at)

-- A ticket of the agent.
abbrev pub with_ticket : Ticket → AgentStat → AgentStat
with_ticket t a = record a {
  total_assigned = suc a.total_assigned;
  total_resolved = a.total_resolved + when (is_done t) 1;
  timed = a.timed + when (is_timed t) 1;
  starts = a.starts + when (is_timed t) (or_zero t.assigned_at);
  ends = a.ends + when (is_timed t) (or_zero t.resolved_at);
}

abbrev pub no_tickets : (agent : ℕ) → AgentStat
no_tickets agent = record {
  agent_id = agent;
  total_assigned = 0;
  total_resolved = 0;
  timed = 0;
  starts = 0;
  ends = 0;
}

unfoldable pub count_for : (agent : ℕ) → Ticket → List AgentStat → List AgentStat
count_for agent t [] = with_ticket t (no_tickets agent) ∷ []
count_for agent t (a ∷ rows) =
    if a.agent_id == agent then with_ticket t a ∷ rows else a ∷ count_for agent t rows

abbrev count_assigned : Option ℕ → Ticket → List AgentStat → List AgentStat
count_assigned none t rows = rows
count_assigned (some agent) t rows = count_for agent t rows

-- `GROUP BY assigned_agent_id`
unfoldable pub group_agents : List Ticket → List AgentStat
unfolding count_for
group_agents [] = []
group_agents (t ∷ ts) = count_assigned t.assigned_agent_id t (group_agents ts)

unfoldable pub assigned_between : (from to : ℕ) → Ticket → Bool
assigned_between from to t =
    not (is_null t.assigned_agent_id)
    && (elim t.assigned_at [ none ↦ false | some at ↦ between from to at ])

-- `time.Now().Add(-time.Duration(windowHours) * time.Hour)` in nanoseconds, which wrap at 64 bits. The least
-- of them is its own negation.
unfoldable pub is_since : (now : ℕ) → (window : ℤ) → (at : ℕ) → Bool
is_since now (pos w) at = leb (now * 10 ^ 9) (at * 10 ^ 9 + w)
is_since now (negsuc w) at =
    if w == 2 ^ 63 - 1
    then leb (now * 10 ^ 9) (at * 10 ^ 9 + 2 ^ 63)
    else leb (now * 10 ^ 9 + suc w) (at * 10 ^ 9)

abbrev pub hour : ℕ
hour = 3600 * 10 ^ 9

unfoldable pub is_critical : (now hours : ℕ) → Ticket → Bool
unfolding is_since
is_critical now hours t = t.priority =s= "High" && is_since now (wrap64 (hours * hour)) t.created_at

abbrev pub trend_row : Ticket → CriticalTicketRow
trend_row t = record { id = t.id; title = t.title; created_at = t.created_at }

unfoldable pub trend_query : (now hours : ℕ) → Query Ticket
unfolding is_critical
trend_query now hours = record {
  matching = is_critical now hours;
  sort_key = λ t. t.created_at;
  direction = desc;
  limit = some 10;
  offset = pos 0;
}

-- `raw` executes a statement that reads the tickets: its rows, or an error.
module _ {Db : Type 0} (store : TicketStore Db) (raw : Db → Result DbError (List Ticket))
    (d : Db) where
  unfoldable pub summary_by_period :
      (date_trunc : String → ℕ → ℕ)
      → (from to : ℕ) → (group_by : String) → Result DbError (List PeriodCount)
  unfolding valid_group_by group_periods
  summary_by_period date_trunc from to group_by = do
    tickets ← raw d
    ok (
        sort_rows (λ (r : PeriodCount). r.period) asc
          (group_periods (date_trunc (valid_group_by group_by))
            (keep (λ t. between from to t.created_at) tickets)))

  unfoldable pub agent_performance : (from to : ℕ) → Result DbError (List AgentStat)
  unfolding group_agents assigned_between
  agent_performance from to = do
    tickets ← raw d
    ok (
        sort_rows (λ (a : AgentStat). a.total_assigned) desc
          (group_agents (keep (assigned_between from to) tickets)))

  unfoldable pub critical_trend : (now hours : ℕ) → Result DbError CriticalTrend
  unfolding trend_query
  critical_trend now hours = do
    count ← store.tickets.count d (is_critical now hours)
    tickets ← store.tickets.find d (trend_query now hours)
    ok (record { count = count; tickets = map trend_row tickets })

  unfoldable pub queue_size : Result DbError ℕ
  queue_size = store.tickets.count d (λ t. is_null t.assigned_agent_id)

abbrev pub day : ℕ
day = 24 * 60 * 60

abbrev pub parsed_or : Option ℕ → ℕ → ℕ
parsed_or none n = n
parsed_or (some parsed) n = parsed

-- A query text that is absent is the empty one. `to` is the last second of its day.
module _ (parse_date : String → Option ℕ) where
  unfoldable pub report_from : (now : ℕ) → (from : String) → ℕ
  report_from now from =
      if from =s= "" then now - 30 * day else parsed_or (parse_date from) (now - 30 * day)

  unfoldable pub report_to : (now : ℕ) → (to : String) → ℕ
  report_to now to =
      if to =s= ""
      then now
      else (elim (parse_date to) [ none ↦ now | some parsed ↦ parsed + (day - 1) ])

abbrev pub positive_hours : Option ℤ → ℕ
positive_hours none = 24
positive_hours (some (pos n)) = if ltb 0 n then n else 24
positive_hours (some (negsuc n)) = 24

unfoldable pub window_hours : String → ℕ
window_hours text = positive_hours (atoi text)

abbrev pub admin_only : Headers → Result Refusal (Unit {0})
admin_only h = guard (h.user_role =s= "admin") (refusal 403 "forbidden" "FORBIDDEN")

abbrev pub report_failed : DbError → Refusal
report_failed e = refusal 500 "failed to build report" "INTERNAL_ERROR"

module _ {Db : Type 0} (store : TicketStore Db) (raw : Db → Result DbError (List Ticket))
    (parse_date : String → Option ℕ) (d : Db) (now : ℕ) (h : Headers) where
  unfoldable pub get_summary :
      (date_trunc : String → ℕ → ℕ)
      → (from to group_by : String) → Result Refusal (List PeriodCount)
  unfolding report_from report_to summary_by_period
  get_summary date_trunc from to group_by = do
    admin_only h
    answer report_failed (
        summary_by_period store raw d date_trunc (report_from parse_date now from)
          (report_to parse_date now to) group_by)

  unfoldable pub get_agent_performance : (from to : String) → Result Refusal (List AgentStat)
  unfolding report_from report_to agent_performance
  get_agent_performance from to = do
    admin_only h
    answer report_failed (
        agent_performance store raw d (report_from parse_date now from)
          (report_to parse_date now to))

  unfoldable pub get_critical_trend : (hours : String) → Result Refusal CriticalTrend
  unfolding window_hours critical_trend
  get_critical_trend hours = do
    admin_only h
    answer report_failed (critical_trend store raw d now (window_hours hours))

  unfoldable pub get_queue_size : Result Refusal ℕ
  unfolding queue_size
  get_queue_size = do admin_only h; answer report_failed (queue_size store raw d)
