-- ===== src/Tickets/ReportExamples.antt =====
-- Reports on a help desk with three tickets.
use helpdesk_microservices.Base.{
  ℕ, ◌≤◌, ◌+◌, ◌*◌, ◌/◌, ◌≡◌, refl, sym, ok-injective, Option, none, some, String, List, [], ◌∷◌,
  All, length, keep, count_by, sum_by, Result, ok, arith,
}
use helpdesk_microservices.Db.{DbError, IsSorted, asc, desc}
use helpdesk_microservices.Db.Memory.{select_in}
use helpdesk_microservices.Db.Sorting.{sort_rows}
use helpdesk_microservices.Http.{Headers}
use helpdesk_microservices.Numeral.{atoi}
use helpdesk_microservices.Tickets.Domain.{Ticket}
use helpdesk_microservices.Tickets.Store.{TicketStore}
use helpdesk_microservices.Tickets.Store.Memory.{MemoryDb, memory_store}
use helpdesk_microservices.Tickets.Reports.{
  PeriodCount, AgentStat, CriticalTicketRow, CriticalTrend, valid_group_by, between, is_in,
  report_from, report_to, window_hours, get_summary, get_agent_performance, get_critical_trend,
}
use helpdesk_microservices.Tickets.Reports.Totals.{counted, is_ticket_in, get_summary-Counts}
use helpdesk_microservices.Tickets.Reports.Agents.{Performance, get_agent_performance-Performance}
use helpdesk_microservices.Tickets.Reports.Trend.{is_urgent, ShowsNewest, get_critical_trend-Urgent}

abbrev ticket : (id created : ℕ) → (agent : Option ℕ) → (status priority : String) → Ticket
ticket id created agent status priority = record {
  id = id;
  title = "t";
  description = "d";
  user_id = 2;
  assigned_agent_id = agent;
  status = status;
  priority = priority;
  department = "Helpdesk";
  assigned_at = some (created + 60);
  resolved_at = some (created + 660);
  closed_at = none;
  due_at = none;
  created_at = created;
}

abbrev desk : MemoryDb
desk = record {
  tickets =
      ticket 1 100000 (some 3) "resolved" "High"
      ∷ ticket 2 100500 (some 3) "assigned" "High"
      ∷ ticket 3 200000 (some 4) "resolved" "Low"
      ∷ [];
  histories = [];
  comments = [];
  attachments = [];
}

abbrev store : TicketStore MemoryDb
store = memory_store 300000

abbrev raw : MemoryDb → Result DbError (List Ticket)
raw d = ok d.tickets

raw-reads : (d : MemoryDb) (rows : List Ticket) → raw d ≡ ok rows → rows ≡ store.tickets.rows d
unfolding memory_store
raw-reads d rows h = sym (ok-injective h)

abbrev no_dates : String → Option ℕ
no_dates s = none

abbrev by_day : String → ℕ → ℕ
by_day g at = at / 86400

abbrev admin : Headers
admin = record {
  authorization = "";
  request_id = "";
  internal_secret = "";
  user_id = "1";
  user_role = "admin";
}

abbrev summary : List PeriodCount
summary =
    (record { period = 1; status = "assigned"; count = 1 })
    ∷ (record { period = 1; status = "resolved"; count = 1 })
    ∷ (record { period = 2; status = "resolved"; count = 1 })
    ∷ []

summary_runs : get_summary store raw no_dates desk 300000 admin by_day "" "" "day" ≡ ok summary
unfolding get_summary sort_rows keep
summary_runs = refl

get_summary-Counts_example :
    (admin.user_role ≡ "admin")
    × IsSorted (λ (r : PeriodCount). r.period) asc summary
    × (count_by (is_in 1 "resolved") summary ≤ 1)
    × (sum_by (counted 1 "resolved") summary
        ≡ count_by (is_ticket_in (by_day (valid_group_by "day")) 1 "resolved") (
            keep
              (λ t.
                between
                  (report_from no_dates 300000 "")
                  (report_to no_dates 300000 "")
                  t.created_at)
              (store.tickets.rows desk)))
get_summary-Counts_example =
    get_summary-Counts store raw raw-reads no_dates desk 300000 admin by_day "" "" "day" summary 1
      "resolved" summary_runs

abbrev stats : List AgentStat
stats =
    (record {
      agent_id = 3;
      total_assigned = 2;
      total_resolved = 1;
      timed = 2;
      starts = 200620;
      ends = 201820;
    })
    ∷ (record {
      agent_id = 4;
      total_assigned = 1;
      total_resolved = 1;
      timed = 1;
      starts = 200060;
      ends = 200660;
    })
    ∷ []

stats_run : get_agent_performance store raw no_dates desk 300000 admin "" "" ≡ ok stats
unfolding get_agent_performance sort_rows keep
stats_run = refl

get_agent_performance-Performance_example :
    (admin.user_role ≡ "admin")
    × Performance store raw raw-reads no_dates desk 300000 admin
        (report_from no_dates 300000 "")
        (report_to no_dates 300000 "")
        stats
        3
get_agent_performance-Performance_example =
    get_agent_performance-Performance store raw raw-reads no_dates desk 300000 admin "" "" stats 3
      stats_run

abbrev trend : CriticalTrend
trend = record {
  count = 2;
  tickets =
      (record { id = 2; title = "t"; created_at = 100500 })
      ∷ (record { id = 1; title = "t"; created_at = 100000 })
      ∷ [];
}

get_critical_trend-Urgent_example :
    (admin.user_role ≡ "admin")
    × (trend.count ≡ count_by (is_urgent 110000 (window_hours "12")) (store.tickets.rows desk))
    × (length trend.tickets ≤ 10)
    × IsSorted (λ (r : CriticalTicketRow). r.created_at) desc trend.tickets
    × All
        (λ (r : CriticalTicketRow). 110000 ≤ r.created_at + window_hours "12" * 3600)
        trend.tickets
    × ShowsNewest 110000 (window_hours "12") (store.tickets.rows desk) trend.tickets
unfolding get_critical_trend memory_store select_in keep count_by sort_rows window_hours atoi
get_critical_trend-Urgent_example =
    get_critical_trend-Urgent store raw no_dates desk 110000 admin "12" trend (omega arith) refl
