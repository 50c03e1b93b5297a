-- ===== src/Notify/Consumer/Settled.antt =====
-- Every delivery is settled once, under its own tag, and what is stored is what was addressed to a user.
use mathlib.Core.List.{append-nil, append_assoc}
use helpdesk_microservices.Base.{
  ℕ, ◌≡◌, refl, sym, ap, ◌∙◌, subst, Bool, true, false, inl, inr, Option-cases, Result-cases, none,
  some, List, [], ◌∷◌, ◌++◌, ok, err, bind-eq-ok, ok-injective,
}
use helpdesk_microservices.Db.{DbError}
use helpdesk_microservices.Amqp.{Call, Log, tell}
use helpdesk_microservices.Tickets.Handler.{Event}
use helpdesk_microservices.Notify.Inbox.{Notification, NotificationStore, create_notification}
use helpdesk_microservices.Notify.Consumer.Defs.{
  Delivery, Ending, returned_error, settle, persist_one, persist_loop,
}

-- The log, newest call first, after the calls were made that are listed, the first one first.
abbrev pub after_calls : Log → List Call → Log
after_calls log [] = log
after_calls log (c ∷ calls) = after_calls (record { call = c; succeeded = true } ∷ log) calls

-- A row is a message for its user: the raw body, not read.
pub record Holds (m : Delivery) (user : ℕ) (n : Notification) : Type 0 where
  pub addressed : n.user_id ≡ user
  pub raw : n.payload ≡ m.body
  pub unread : n.read ≡ false

module _ {Db : Type 0} (store : NotificationStore Db) where
  -- What is done with a message: the call, the rows that are added, and the database after it.
  pub data Handled (m : Delivery) (db : Db) : Call → List Notification → Db → Type 0 where
    malformed : m.event ≡ none → Handled m db (Call.nack false false m.tag) [] db
    for_roles :
        (e : Event)
        → m.event ≡ some e
        → e.target_user_id ≡ none
        → Handled m db (Call.ack false m.tag) [] db
    stored :
        (e : Event) (user : ℕ) (n : Notification) (after : Db)
        → m.event ≡ some e
        → e.target_user_id ≡ some user
        → Holds m user n
        → store.rows after ≡ store.rows db ++ n ∷ []
        → Handled m db (Call.ack false m.tag) (n ∷ []) after
    failed :
        (e : Event) (user : ℕ) (failure : DbError)
        → m.event ≡ some e
        → e.target_user_id ≡ some user
        → create_notification store db user m.body ≡ err failure
        → Handled m db (Call.nack false false m.tag) [] db

  -- The messages one after the other, each with its one call.
  pub data AllHandled : List Delivery → Db → List Call → List Notification → Db → Type 0 where
    no_more : (db : Db) → AllHandled [] db [] [] db
    one_more :
        (m : Delivery) (more : List Delivery) (db mid after : Db) (c : Call) (calls : List Call)
        (rows later : List Notification)
        → Handled m db c rows mid
        → AllHandled more mid calls later after
        → AllHandled (m ∷ more) db (c ∷ calls) (rows ++ later) after

  -- What the loop makes of the messages, from a database and a log to those after it.
  pub record Settled (messages : List Delivery) (db after : Db) (before log : Log) : Type 0 where
    pub calls : List Call
    pub rows : List Notification
    pub handled : AllHandled messages db calls rows after
    pub appended : store.rows after ≡ store.rows db ++ rows
    pub logged : log ≡ after_calls before calls

  -- One message.
  record Done (m : Delivery) (db : Db) (result : Bool × Db) : Type 0 where
    rows : List Notification
    handled : Handled m db (settle result.0 m.tag) rows result.1
    appended : store.rows result.1 ≡ store.rows db ++ rows

  nothing_added :
      (m : Delivery) (db : Db) (success : Bool)
      → Handled m db (settle success m.tag) [] db
      → Done m db (success, db)
  nothing_added m db success h = record {
    rows = [];
    handled = h;
    appended = sym (append-nil (store.rows db));
  }

  one_added :
      (m : Delivery) (db after : Db) (e : Event) (user : ℕ)
      → m.event ≡ some e
      → e.target_user_id ≡ some user
      → create_notification store db user m.body ≡ ok after
      → Done m db (true, after)
  unfolding create_notification settle
  one_added m db after e user decoded addressed h =
      let row : Notification = record {
        id = 0;
        user_id = user;
        payload = m.body;
        read = false;
        created_at = 0;
      } in
      let ((n, after'), created, last) = bind-eq-ok (store.create db row) _ h in
      let i = store.create_inserted db after' row n created in
      let added = ap store.rows (sym (ok-injective last)) ∙ i.appended in
      record {
        rows = n ∷ [];
        handled =
            stored e user n after decoded addressed
              (record {
                addressed = ap (λ (n : Notification). n.user_id) i.filled;
                raw = ap (λ (n : Notification). n.payload) i.filled;
                unread = ap (λ (n : Notification). n.read) i.filled;
              })
              added;
        appended = added;
      }

  Done-of :
      (m : Delivery) (db : Db) (result : Bool × Db)
      → persist_one store db m ≡ result
      → Done m db result
      → Done m db (persist_one store db m)
  Done-of m db result e h = subst (λ r. Done m db r) (sym e) h

  persist_one-Done : (db : Db) (m : Delivery) → Done m db (persist_one store db m)
  unfolding persist_one settle
  persist_one-Done db m = elim (Option-cases m.event) [
    | inl bad ↦
        Done-of m db (false, db) (rw (bad, persist_one) refl)
          (nothing_added m db false (malformed bad))
    | inr (e, decoded) ↦ elim (Option-cases e.target_user_id) [
      | inl roles ↦
          Done-of m db (true, db) (rw (decoded, roles, persist_one) refl)
            (nothing_added m db true (for_roles e decoded roles))
      | inr (user, addressed) ↦ elim (Result-cases (create_notification store db user m.body)) [
        | inl (after, created) ↦
            Done-of m db (true, after) (rw (decoded, addressed, created, persist_one) refl)
              (one_added m db after e user decoded addressed created)
        | inr (failure, broke) ↦
            Done-of m db (false, db) (rw (decoded, addressed, broke, persist_one) refl)
              (nothing_added m db false (failed e user failure decoded addressed broke))
      ]
    ]
  ]

  -- The result of the loop, whose calls do not fail.
  pub after_loop : Db → List Delivery → Db
  unfolding persist_one
  after_loop db [] = db
  after_loop db (m ∷ more) = after_loop (persist_one store db m).1 more

  loop-Settled :
      (db : Db) (messages : List Delivery) (ending : Ending) (before : Log)
      → Settled messages db
          (after_loop db messages)
          before
          (persist_loop store db messages ending before).1
  unfolding persist_loop after_loop tell
  loop-Settled db [] ending before = record {
    calls = [];
    rows = [];
    handled = no_more db;
    appended = sym (append-nil (store.rows db));
    logged = refl;
  }
  loop-Settled db (m ∷ more) ending before =
      let (success, mid) = persist_one store db m in
      let now = persist_one-Done db m in
      let later = loop-Settled mid more ending (tell (settle success m.tag) before).1 in
      record {
        calls = settle success m.tag ∷ later.calls;
        rows = now.rows ++ later.rows;
        handled =
            one_more m more db mid _ (settle success m.tag) later.calls now.rows later.rows
              now.handled later.handled;
        appended =
            later.appended
            ∙ ap (λ rows. rows ++ later.rows) now.appended
            ∙ append_assoc (store.rows db) now.rows later.rows;
        logged = later.logged;
      }

  loop-returns :
      (db : Db) (messages : List Delivery) (ending : Ending) (before : Log)
      → persist_loop store db messages ending before ≡ (
        ok (after_loop db messages, returned_error ending),
        (persist_loop store db messages ending before).1,
      )
  unfolding persist_loop after_loop tell
  loop-returns db [] ending before = refl
  loop-returns db (m ∷ more) ending before =
      loop-returns (persist_one store db m).1 more ending
        (tell (settle (persist_one store db m).0 m.tag) before).1

  -- The loop over the shared queue goes on to its ending, whatever the messages, and makes one
  -- call for each, in their order, under the message's own tag alone: one that names no user is
  -- acknowledged, one whose notification is stored too, and one that is malformed or that the
  -- database refuses is rejected and not queued again. The rows that are added are those of the
  -- stored ones, in order: for the user whom the event names, with the raw body, and unread.
  pub persist_loop-Settled :
      (db : Db) (messages : List Delivery) (ending : Ending) (before : Log)
      → (after : Db) × (log : Log) × (persist_loop store db messages ending before
          ≡ (ok (after, returned_error ending), log))
        × Settled messages db after before log
  persist_loop-Settled db messages ending before =
      (_, _, loop-returns db messages ending before, loop-Settled db messages ending before)
