-- ===== src/Notify/Inbox/Backlog.antt =====
-- The abstract view: each user has a backlog of messages, seen or not, and an operation on the table is an
-- operation on the backlog of one user.
use helpdesk_microservices.Base.{
  ℕ, ◌≡◌, ◌≢◌, refl, sym, ap, ◌∙◌, subst, Bool, true, false, ◌==◌, String, List, [], ◌∷◌, ◌++◌, map,
  keep, Result, ok, bind-eq-ok, ok-injective, arith, if◌then◌else◌,
}
use helpdesk_microservices.Db.{DbError, update_where}
use helpdesk_microservices.Notify.Inbox.Defs.{
  Notification, NotificationStore, notification_defaults, is_unread_of, is_one_of, set_read,
  create_notification, mark_read, mark_all_read,
}

-- One message of a backlog.
pub record Message : Type 0 where
  pub id : ℕ
  pub payload : String
  pub seen : Bool

abbrev pub Backlog : Type 0
Backlog = ℕ → List Message

abbrev pub message_of : Notification → Message
message_of n = record { id = n.id; payload = n.payload; seen = n.read }

abbrev pub is_of : ℕ → Notification → Bool
is_of user n = n.user_id == user

-- The messages of each user in the table, oldest first.
abbrev pub backlog_of : List Notification → Backlog
backlog_of rows user = map message_of (keep (is_of user) rows)

-- What is done to a backlog.
pub data Action : Type 0 where
  arrives : (user id : ℕ) → (payload : String) → Action
  sees : (user id : ℕ) → Action
  sees_all : (user : ℕ) → Action

abbrev pub see : Message → Message
see m = record m { seen = true }

-- The backlog of the user after an action; every other user's is as it was.
abbrev pub after_action : Action → Backlog → Backlog
after_action (Action.arrives user id payload) b other =
    if user == other
    then b other ++ (record { id = id; payload = payload; seen = false }) ∷ []
    else b other
after_action (Action.sees user id) b other =
    if user == other then map (λ m. if m.id == id then see m else m) (b other) else b other
after_action (Action.sees_all user) b other = if user == other then map see (b other) else b other

keep-append :
    {A : Type 0} (p : A → Bool) (xs ys : List A) → keep p (xs ++ ys) ≡ keep p xs ++ keep p ys
unfolding keep
keep-append p [] ys = refl
keep-append p (x ∷ xs) ys = ground (arith, keep-append p xs ys)

backlog-create :
    (rows : List Notification) (n : Notification) (other : ℕ)
    → n.read ≡ false
    → backlog_of (rows ++ n ∷ []) other
      ≡ after_action (Action.arrives n.user_id n.id n.payload) (backlog_of rows) other
unfolding keep
backlog-create [] n other h = ground arith
backlog-create (r ∷ rows) n other h = ground (arith, backlog-create rows n other h)

backlog-see :
    (rows : List Notification) (user id other : ℕ)
    → backlog_of (update_where (is_one_of id user) set_read rows) other
      ≡ after_action (Action.sees user id) (backlog_of rows) other
unfolding keep is_one_of
backlog-see [] user id other = ground arith
backlog-see (r ∷ rows) user id other = ground (arith, backlog-see rows user id other)

backlog-see_all :
    (rows : List Notification) (user other : ℕ)
    → backlog_of (update_where (is_unread_of user) set_read rows) other
      ≡ after_action (Action.sees_all user) (backlog_of rows) other
unfolding keep is_unread_of
backlog-see_all [] user other = ground arith
backlog-see_all (r ∷ rows) user other = ground (arith, backlog-see_all rows user other)

-- The requests that write to the table, and what each may do to a backlog. The id is the database's.
pub data Request : Type 0 where
  post : (user : ℕ) → (payload : String) → Request
  read_one : (id user : ℕ) → Request
  read_all : (user : ℕ) → Request

pub data Abstracts : Request → Action → Type 0 where
  posting :
      (user id : ℕ) (payload : String)
      → Abstracts (Request.post user payload) (Action.arrives user id payload)
  reading : (id user : ℕ) → Abstracts (Request.read_one id user) (Action.sees user id)
  reading_all : (user : ℕ) → Abstracts (Request.read_all user) (Action.sees_all user)

module _ {Db : Type 0} (store : NotificationStore Db) where
  unfoldable pub perform : Db → Request → Result DbError Db
  unfolding create_notification mark_read mark_all_read
  perform d (Request.post user payload) = create_notification store d user payload
  perform d (Request.read_one id user) = mark_read store d id user
  perform d (Request.read_all user) = mark_all_read store d user

  abbrev pub view : Db → Backlog
  view d = backlog_of (store.rows d)

  -- The table's users see the action that the request stands for, and nothing else.
  pub record Refines (d e : Db) (r : Request) : Type 0 where
    pub action : Action
    pub stands_for : Abstracts r action
    pub follows : (other : ℕ) → view e other ≡ after_action action (view d) other

  created-Refines :
      (d e : Db) (user : ℕ) (payload : String)
      → perform d (Request.post user payload) ≡ ok e
      → Refines d e (Request.post user payload)
  unfolding perform create_notification
  created-Refines d e user payload h =
      let row : Notification = record {
        id = 0;
        user_id = user;
        payload = payload;
        read = false;
        created_at = 0;
      } in
      let ((stored, e'), created, last) = bind-eq-ok (store.create d row) _ h in
      let i = store.create_inserted d e' row stored created in
      record {
        action = Action.arrives user i.new_id payload;
        stands_for = posting user i.new_id payload;
        follows = λ other.
            ap (λ (x : Db). view x other) (sym (ok-injective last))
            ∙ ap (λ rows. backlog_of rows other) i.appended
            ∙ subst
                (λ (n : Notification).
                  backlog_of (store.rows d ++ n ∷ []) other
                  ≡ after_action (Action.arrives user i.new_id payload) (view d) other)
                (sym i.filled)
                (backlog-create (store.rows d) (notification_defaults i.new_id i.now row) other
                  refl);
      }

  -- A request that the table of notifications carries out does to the users' backlogs what it
  -- stands for: a new message at the end of its user's, or one or all of the caller's marked as
  -- seen; the backlogs of the others stay as they are.
  pub perform-Refines : (d e : Db) (r : Request) → perform d r ≡ ok e → Refines d e r
  unfolding perform mark_read mark_all_read
  perform-Refines d e (Request.post user payload) h = created-Refines d e user payload h
  perform-Refines d e (Request.read_one id user) h = record {
    action = Action.sees user id;
    stands_for = reading id user;
    follows = λ other.
        ap (λ rows. backlog_of rows other) (store.updates_rows d e _ _ h)
        ∙ backlog-see (store.rows d) user id other;
  }
  perform-Refines d e (Request.read_all user) h = record {
    action = Action.sees_all user;
    stands_for = reading_all user;
    follows = λ other.
        ap (λ rows. backlog_of rows other) (store.updates_rows d e _ _ h)
        ∙ backlog-see_all (store.rows d) user other;
  }

-- Whose backlog a request is about.
abbrev pub owner : Request → ℕ
owner (Request.post user payload) = user
owner (Request.read_one id user) = user
owner (Request.read_all user) = user

other_kept :
    {r : Request} {a : Action} (b : Backlog) (other : ℕ)
    → Abstracts r a
    → other ≢ owner r
    → after_action a b other ≡ b other
other_kept b other (posting user id payload) p = ground (arith, p)
other_kept b other (reading id user) p = ground (arith, p)
other_kept b other (reading_all user) p = ground (arith, p)

pub Refines-others :
    {Db : Type 0} (store : NotificationStore Db) (d e : Db) (r : Request) (other : ℕ)
    → perform store d r ≡ ok e
    → other ≢ owner r
    → view store e other ≡ view store d other
Refines-others store d e r other h p =
    let f = perform-Refines store d e r h in
    f.follows other ∙ other_kept (view store d) other f.stands_for p
