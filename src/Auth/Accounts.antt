-- ===== src/Auth/Accounts.antt =====
-- auth_usecase.go, user_repository.go and bootstrap.go. `salt` is the randomness of bcrypt.
use helpdesk_microservices.Base.{
  ℕ, ltb, ◌==◌, ◌=s=◌, Bool, true, false, not, ◌||◌, Option, none, some, String, List, length,
  Result, ok, err, ◌>>=◌, ◌>>◌, guard, lift, if◌then◌else◌, pos,
}
use helpdesk_microservices.Db.{DbError, asc}
use helpdesk_microservices.Auth.Domain.{User}
use helpdesk_microservices.Auth.Store.{AuthStore, Bcrypt}

-- `mismatch` and `hash_failed` are bcrypt's own errors.
pub data AuthError : Type 0 where
  email_taken wrong_password invalid_availability mismatch hash_failed : AuthError
  database : DbError → AuthError

-- A value or an error of the given kind.
abbrev pub or_error : {E A : Type 0} → Option A → E → Result E A
or_error none e = err e
or_error (some a) e = ok a

abbrev pub with_email : String → User → Bool
with_email email u = u.email =s= email

unfoldable pub valid_availability : String → Bool
valid_availability a = a =s= "available" || a =s= "busy" || a =s= "offline"

abbrev pub new_user : (name email password department role : String) → User
new_user name email password department role = record {
  id = 0;
  name = name;
  email = email;
  password = password;
  department = department;
  availability = "";
  role = role;
}

module _ {Db : Type 0} (store : AuthStore Db) where
  unfoldable pub create_user : Db → User → Result DbError Db
  create_user d u = do (_, d') ← store.users.create d u; ok d'

  -- `Save` of a row that was read.
  unfoldable pub update_user : Db → User → Result DbError Db
  update_user d u = store.users.updates d (λ r. r.id == u.id) (λ _. u)

  unfoldable pub find_by_email : Db → String → Result DbError User
  find_by_email d email = store.users.first_where d (with_email email)

  unfoldable pub find_user : Db → ℕ → Result DbError User
  find_user d id = store.users.first d id

  unfoldable pub find_by_role : Db → String → Result DbError (List User)
  find_by_role d role = store.users.find d (record {
    matching = λ u. u.role =s= role;
    sort_key = λ u. u.id;
    direction = asc;
    limit = none;
    offset = pos 0;
  })

  -- Only a row that is found stands in the way, and not an error of the lookup.
  abbrev pub is_taken : Db → String → Bool
  is_taken d email = elim (find_by_email d email) [ ok _ ↦ true | err _ ↦ false ]

  unfoldable pub update_profile : Db → ℕ → (name department : String) → Result AuthError (User × Db)
  unfolding find_user update_user
  update_profile d id name department = do
    user ← lift database (find_user d id)
    let changed = record user { name = name; department = department }
    d' ← lift database (update_user d changed)
    ok (changed, d')

  unfoldable pub update_availability : Db → ℕ → String → Result AuthError (User × Db)
  unfolding find_user update_user valid_availability
  update_availability d id availability = do
    guard (valid_availability availability) invalid_availability
    user ← lift database (find_user d id)
    let changed = record user { availability = availability }
    d' ← lift database (update_user d changed)
    ok (changed, d')

  module _ (bcrypt : Bcrypt) where
    unfoldable pub register :
        Db → (salt : ℕ) → (name email password department role : String) → Result AuthError Db
    unfolding find_by_email create_user
    register d salt name email password department role = do
      guard (not (is_taken d email)) email_taken
      hashed ← or_error (bcrypt.hash salt password) hash_failed
      lift database (create_user d (new_user name email hashed department role))

    unfoldable pub login : Db → (email password : String) → Result AuthError User
    unfolding find_by_email
    login d email password = do
      user ← lift database (find_by_email d email)
      guard (bcrypt.compare user.password password) mismatch
      ok user

    unfoldable pub change_password :
        Db → (salt : ℕ) → ℕ → (old_password new_password : String) → Result AuthError Db
    unfolding find_user update_user
    change_password d salt id old_password new_password = do
      user ← lift database (find_user d id)
      guard (bcrypt.compare user.password old_password) wrong_password
      hashed ← or_error (bcrypt.hash salt new_password) hash_failed
      lift database (update_user d (record user { password = hashed }))

    -- The first admin; the credentials come from the environment.
    unfoldable pub bootstrap_admin :
        Db → (salt : ℕ) → (email password : String) → Result AuthError Db
    unfolding find_by_role create_user
    bootstrap_admin d salt email password =
        let make = do
          admins ← lift database (find_by_role d "admin")
          let created = do
            hashed ← or_error (bcrypt.hash salt password) hash_failed
            lift database (create_user d (new_user "Admin" email hashed "" "admin"))
          (if ltb 0 (length admins) then ok d else created)
        in if email =s= "" || password =s= "" then ok d else make
