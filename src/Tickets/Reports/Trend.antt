-- ===== src/Tickets/Reports/Trend.antt =====
-- The reports that count: the trend of urgent tickets and the size of the queue.
use mathlib.Core.Path.{fun_ext}
use helpdesk_microservices.Base.{
  ℕ, suc, ◌+◌, ◌*◌, ◌≤◌, ◌≡◌, refl, sym, ap, ◌∙◌, subst, Bool, true, ◌&&◌, leb, ◌=s=◌, Option, some,
  String, List, [], ◌∷◌, map, All, length, count_by, Result, ok, ok-injective, bind-eq-ok, arith,
  pos, wrap64,
}
use helpdesk_microservices.Db.{DbError, IsSorted, desc, Query, Selected}
use helpdesk_microservices.Db.Selection.{Selected-All, Selected-IsSorted, Selected-length}
use helpdesk_microservices.Http.{Headers}
use helpdesk_microservices.Tickets.Domain.{Ticket}
use helpdesk_microservices.Tickets.Store.{TicketStore}
use helpdesk_microservices.Tickets.Reports.Defs.{
  CriticalTicketRow, CriticalTrend, is_since, hour, is_critical, trend_row, trend_query,
  critical_trend, window_hours, report_failed, get_critical_trend,
}
use helpdesk_microservices.Tickets.Reports.Totals.{admin-answered}

-- The longest window whose nanoseconds fit.
abbrev pub max_window : ℕ
max_window = 2562047

window-pos : (hours : ℕ) → hours ≤ max_window → wrap64 (hours * hour) ≡ pos (hours * hour)
window-pos hours h = ground arith

-- A high-priority ticket that was created in the last hours.
abbrev pub is_urgent : (now hours : ℕ) → Ticket → Bool
is_urgent now hours t = t.priority =s= "High" && leb now (t.created_at + hours * 3600)

since-seconds :
    (now hours at : ℕ)
    → hours ≤ max_window
    → is_since now (wrap64 (hours * hour)) at ≡ leb now (at + hours * 3600)
unfolding is_since
since-seconds now hours at h = rw (window-pos hours h, is_since) (ground arith)

is_critical-is_urgent :
    (now hours : ℕ) → hours ≤ max_window → is_critical now hours ≡ is_urgent now hours
unfolding is_critical
is_critical-is_urgent now hours h =
    fun_ext (λ t. ap (λ b. t.priority =s= "High" && b) (since-seconds now hours t.created_at h))

length-map : {A B : Type 0} (f : A → B) (xs : List A) → length (map f xs) ≡ length xs
length-map f [] = refl
length-map f (x ∷ xs) = ap suc (length-map f xs)

All-trend :
    (now hours : ℕ) (ts : List Ticket)
    → All (λ t. is_urgent now hours t ≡ true) ts
    → All (λ (r : CriticalTicketRow). now ≤ r.created_at + hours * 3600) (map trend_row ts)
All-trend now hours [] h = tt
All-trend now hours (t ∷ ts) (u, rest) = (ground (arith, u), All-trend now hours ts rest)

IsSorted-trend :
    (ts : List Ticket)
    → IsSorted (λ (t : Ticket). t.created_at) desc ts
    → IsSorted (λ (r : CriticalTicketRow). r.created_at) desc (map trend_row ts)
IsSorted-trend [] h = tt
IsSorted-trend (t ∷ ts) (first, rest) = (below ts first, IsSorted-trend ts rest)
  where
    below :
        (us : List Ticket)
        → All (λ (u : Ticket). u.created_at ≤ t.created_at) us
        → All (λ (r : CriticalTicketRow). r.created_at ≤ t.created_at) (map trend_row us)
    below [] g = tt
    below (u ∷ us) (g, gs) = (g, below us gs)

abbrev pub newest_ten : (Ticket → Bool) → Query Ticket
newest_ten p = record {
  matching = p;
  sort_key = λ t. t.created_at;
  direction = desc;
  limit = some 10;
  offset = pos 0;
}

-- The list shows the number, the title and the time of the ten urgent tickets that are the newest, or of all
-- where there are fewer.
pub record ShowsNewest (now hours : ℕ) (rows : List Ticket) (list : List CriticalTicketRow)
    : Type 0 where
  pub chosen : List Ticket
  pub newest : Selected (newest_ten (is_urgent now hours)) rows chosen
  pub shown :
      list
      ≡ map
          (λ (t : Ticket). record { id = t.id; title = t.title; created_at = t.created_at })
          chosen

module _ {Db : Type 0} (store : TicketStore Db) (raw : Db → Result DbError (List Ticket))
    (parse_date : String → Option ℕ) (d : Db) (now : ℕ) (h : Headers) where
  -- The trend, over a window of at most 2562047 hours, is given to an admin only. Its count is
  -- the number of the tickets of high priority that were created in the window, and it lists
  -- the number, the title and the time of the ten newest of these tickets, or of all where
  -- there are fewer, the newest first.
  pub get_critical_trend-Urgent :
      (text : String) (trend : CriticalTrend)
      → window_hours text ≤ max_window
      → get_critical_trend store raw parse_date d now h text ≡ ok trend
      → (h.user_role ≡ "admin")
        × (trend.count ≡ count_by (is_urgent now (window_hours text)) (store.tickets.rows d))
        × (length trend.tickets ≤ 10)
        × IsSorted (λ (r : CriticalTicketRow). r.created_at) desc trend.tickets
        × All
            (λ (r : CriticalTicketRow). now ≤ r.created_at + window_hours text * 3600)
            trend.tickets
        × ShowsNewest now (window_hours text) (store.tickets.rows d) trend.tickets
  unfolding get_critical_trend critical_trend trend_query
  get_critical_trend-Urgent text trend fits e =
      let hours = window_hours text in
      let (admin, found) = admin-answered report_failed h _ trend e in
      let (n, counted, rest) = bind-eq-ok (store.tickets.count d (is_critical now hours)) _ found in
      let (tickets, listed, last) =
        bind-eq-ok (store.tickets.find d (trend_query now hours)) _ rest in
      let s = store.tickets.find_selected d _ tickets listed in
      let same = ok-injective last in
      let urgent = is_critical-is_urgent now hours fits in
      let rows_are = ap (λ (t : CriticalTrend). t.tickets) same in
      (
        admin,
        ap (λ (t : CriticalTrend). t.count) (sym same)
            ∙ store.tickets.count_rows d _ n counted
            ∙ ap (λ p. count_by p (store.tickets.rows d)) urgent,
        subst (λ (l : List CriticalTicketRow). length l ≤ 10) rows_are
            (omega (arith, length-map trend_row tickets, Selected-length s 10 refl)),
        subst (IsSorted (λ (r : CriticalTicketRow). r.created_at) desc) rows_are
            (IsSorted-trend tickets (Selected-IsSorted s)),
        subst (All (λ (r : CriticalTicketRow). now ≤ r.created_at + hours * 3600)) rows_are (
            All-trend now hours tickets
              (subst (λ p. All (λ t. p t ≡ true) tickets) urgent (Selected-All s))),
        record {
          chosen = tickets;
          newest = subst (λ p. Selected (newest_ten p) (store.tickets.rows d) tickets) urgent s;
          shown = sym rows_are;
        },
      )
