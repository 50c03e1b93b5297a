-- ===== src/Notify/Inbox/Defs.antt =====
-- The data, the repository and the use cases. The payload is the raw JSON of the event; an empty one is
-- stored as NULL and read back as empty.
use helpdesk_microservices.Base.{
  ℕ, ◌==◌, Bool, true, false, not, ◌&&◌, ◌||◌, some, String, List, Result, ok, ◌>>=◌, ℤ,
}
use helpdesk_microservices.Db.{DbError, Query, desc, Table}

pub record Notification : Type 0 where
  pub id : ℕ
  pub user_id : ℕ
  pub payload : String
  pub read : Bool
  pub created_at : ℕ

-- What GORM fills in: the id and the time. `read` is false by default, and is not set by the code.
abbrev pub notification_defaults : ℕ → ℕ → Notification → Notification
notification_defaults id now n = record n { id = id; created_at = now }

abbrev pub NotificationStore : Type 0 → Type 0
NotificationStore Db = Table Db Notification (λ n. n.id) notification_defaults

unfoldable pub is_unread_of : (user : ℕ) → Notification → Bool
is_unread_of user n = n.user_id == user && not n.read

unfoldable pub is_one_of : (id user : ℕ) → Notification → Bool
is_one_of id user n = n.id == id && n.user_id == user

-- Set on the rows that an update finds.
abbrev pub set_read : Notification → Notification
set_read n = record n { read = true }

-- `Where("user_id = ?")`, with `Where("read = ?", false)` where only unread ones are asked for.
unfoldable pub inbox_query :
    (user : ℕ) → (unread_only : Bool) → (limit : ℕ) → ℤ → Query Notification
inbox_query user unread_only limit offset = record {
  matching = λ n. n.user_id == user && (not unread_only || not n.read);
  sort_key = λ n. n.created_at;
  direction = desc;
  limit = some limit;
  offset = offset;
}

module _ {Db : Type 0} (store : NotificationStore Db) (d : Db) where
  -- NotificationUsecase.Create over the repository's Create.
  unfoldable pub create_notification : (user : ℕ) → (payload : String) → Result DbError Db
  create_notification user payload = do
    (_, e) ←
        store.create d
          (record { id = 0; user_id = user; payload = payload; read = false; created_at = 0 })
    ok e

  unfoldable pub list_notifications :
      (user : ℕ) → (unread_only : Bool) → (limit : ℕ) → ℤ → Result DbError (List Notification)
  unfolding inbox_query
  list_notifications user unread_only limit offset =
      store.find d (inbox_query user unread_only limit offset)

  unfoldable pub mark_read : (id user : ℕ) → Result DbError Db
  unfolding is_one_of
  mark_read id user = store.updates d (is_one_of id user) set_read

  unfoldable pub mark_all_read : (user : ℕ) → Result DbError Db
  unfolding is_unread_of
  mark_all_read user = store.updates d (is_unread_of user) set_read
