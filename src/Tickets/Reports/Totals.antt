-- ===== src/Tickets/Reports/Totals.antt =====
-- The grouped reports count every ticket of their range once.
use helpdesk_microservices.Base.{
  ℕ, ◌+◌, ◌≤◌, ◌≡◌, refl, sym, ap, ◌∙◌, subst, Bool, ◌&&◌, ◌==◌, ◌=s=◌, eq_iff, Option, String,
  List, [], ◌∷◌, keep, count_by, sum_by, Result, ok, ok-injective, bind-eq-ok, guard-eq-ok, ◌>>◌,
  arith, if◌then◌else◌,
}
use helpdesk_microservices.Db.{DbError, IsSorted, asc}
use helpdesk_microservices.Db.Sorting.{sort_rows-IsSorted, sort_rows-same, sum-sort_rows}
use helpdesk_microservices.Http.{Headers, Refusal, refusal, answer, answer-eq-ok}
use helpdesk_microservices.Tickets.Domain.{Ticket}
use helpdesk_microservices.Tickets.Store.{TicketStore}
use helpdesk_microservices.Tickets.Reports.Defs.{
  PeriodCount, valid_group_by, between, is_in, count_in, group_periods, summary_by_period,
  admin_only, report_failed, report_from, report_to, get_summary,
}

-- What a row adds to the count for a period and a status.
abbrev pub counted : (period : ℕ) → (status : String) → PeriodCount → ℕ
counted period status r = if is_in period status r then r.count else 0

abbrev pub is_ticket_in : (date_trunc : ℕ → ℕ) → (period : ℕ) → (status : String) → Ticket → Bool
is_ticket_in date_trunc period status t = date_trunc t.created_at == period && t.status =s= status

counted-count_in :
    (p q : ℕ) (s u : String) (rows : List PeriodCount)
    → sum_by (counted p s) (count_in q u rows)
      ≡ (if q == p && u =s= s then 1 else 0) + sum_by (counted p s) rows
unfolding sum_by count_in
counted-count_in p q s u [] = ground arith
counted-count_in p q s u (r ∷ rows) =
    ground (arith, eq_iff r.status u, eq_iff r.status s, eq_iff u s, counted-count_in p q s u rows)

counted-group_periods :
    (date_trunc : ℕ → ℕ) (p : ℕ) (s : String) (ts : List Ticket)
    → sum_by (counted p s) (group_periods date_trunc ts) ≡ count_by (is_ticket_in date_trunc p s) ts
unfolding group_periods count_by sum_by
counted-group_periods date_trunc p s [] = refl
counted-group_periods date_trunc p s (t ∷ ts) = ground (
  arith,
  counted-count_in p (date_trunc t.created_at) s t.status (group_periods date_trunc ts),
  counted-group_periods date_trunc p s ts,
)

abbrev at_least_one : ℕ → ℕ
at_least_one n = if n == 0 then 1 else n

count-count_in :
    (p q : ℕ) (s u : String) (rows : List PeriodCount)
    → count_by (is_in p s) (count_in q u rows) ≡ (
        if q == p && u =s= s
        then at_least_one (count_by (is_in p s) rows)
        else count_by (is_in p s) rows)
unfolding count_by count_in
count-count_in p q s u [] = ground arith
count-count_in p q s u (r ∷ rows) =
    ground (arith, eq_iff r.status u, eq_iff r.status s, eq_iff u s, count-count_in p q s u rows)

-- No two rows are for one period and status.
count-group_periods :
    (date_trunc : ℕ → ℕ) (p : ℕ) (s : String) (ts : List Ticket)
    → count_by (is_in p s) (group_periods date_trunc ts) ≤ 1
unfolding group_periods count_by
count-group_periods date_trunc p s [] = omega arith
count-group_periods date_trunc p s (t ∷ ts) = ground (
  arith,
  count-count_in p (date_trunc t.created_at) s t.status (group_periods date_trunc ts),
  count-group_periods date_trunc p s ts,
)

-- How the caller of a report is told apart, and what the report answers.
pub admin-answered :
    {E A : Type 0} (f : E → Refusal) (h : Headers) (r : Result E A) (a : A)
    → (admin_only h >> answer f r) ≡ ok a
    → (h.user_role ≡ "admin") × (r ≡ ok a)
admin-answered f h r a e =
    let (_, admin, last) = bind-eq-ok (admin_only h) _ e in
    (
      (eq_iff h.user_role "admin").0
          (guard-eq-ok (h.user_role =s= "admin") (refusal 403 "forbidden" "FORBIDDEN") admin),
      answer-eq-ok f r last,
    )

module _ {Db : Type 0} (store : TicketStore Db) (raw : Db → Result DbError (List Ticket))
    (reads : (d : Db) (rows : List Ticket) → raw d ≡ ok rows → rows ≡ store.tickets.rows d)
    (parse_date : String → Option ℕ) (d : Db) (now : ℕ) (h : Headers) where
  -- The summary of a range is given to an admin only. Its rows are in the order of their
  -- periods, no two are for one period and status, and what they count for a period and a
  -- status is the number of the tickets of that status that were created in the range and in
  -- that period. A raw statement reads the rows of the table.
  pub get_summary-Counts :
      (date_trunc : String → ℕ → ℕ) (from to group_by : String) (rows : List PeriodCount)
      (period : ℕ) (status : String)
      → get_summary store raw parse_date d now h date_trunc from to group_by ≡ ok rows
      → (h.user_role ≡ "admin")
        × IsSorted (λ (r : PeriodCount). r.period) asc rows
        × (count_by (is_in period status) rows ≤ 1)
        × (sum_by (counted period status) rows
            ≡ count_by (is_ticket_in (date_trunc (valid_group_by group_by)) period status) (
                keep
                  (λ t.
                    between
                      (report_from parse_date now from)
                      (report_to parse_date now to)
                      t.created_at)
                  (store.tickets.rows d)))
  unfolding get_summary summary_by_period
  get_summary-Counts date_trunc from to group_by rows period status e =
      let (admin, found) = admin-answered report_failed h _ rows e in
      let (tickets, read, last) = bind-eq-ok (raw d) _ found in
      let trunc = date_trunc (valid_group_by group_by) in
      let chosen =
        keep
          (λ (t : Ticket).
            between (report_from parse_date now from) (report_to parse_date now to) t.created_at)
          tickets in
      let by_period = λ (r : PeriodCount). r.period in
      let groups = group_periods trunc chosen in
      let same = ok-injective last in
      (
        admin,
        subst (IsSorted by_period asc) same (sort_rows-IsSorted by_period asc groups),
        subst (λ rs. count_by (is_in period status) rs ≤ 1) same
            (omega (
              arith,
              sort_rows-same by_period asc groups (is_in period status),
              count-group_periods trunc period status chosen,
            )),
        ap (sum_by (counted period status)) (sym same)
            ∙ sum-sort_rows by_period asc (counted period status) groups
            ∙ counted-group_periods trunc period status chosen
            ∙ ap
                (λ (ts : List Ticket). count_by (is_ticket_in trunc period status) (
                  keep
                    (λ t.
                      between (report_from parse_date now from) (report_to parse_date now to)
                        t.created_at)
                    ts))
                (reads d tickets read),
      )
