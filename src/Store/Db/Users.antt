-- ===== src/Store/Db/Users.antt =====
-- The users of internal/store/sqlite/sqlite.go.
use ngm.Base.{
  ℕ, suc, ◌||◌, List, [], ◌∷◌, ◌++◌, Option, none, some, Result, errorf, ◌==◌, if◌then◌else◌, try,
  fail, ◌>>◌,
}
use ngm.Base.Sort.{sort}
use ngm.Text.{Text, text, text_eq, is_empty, less}
use ngm.Store.{User}
use ngm.Store.Db.{Db, Sql, Lookup, to_result, exec, query, query_row}

unfoldable pub user_named : Text → List User → Option User
user_named name [] = none
user_named name (u ∷ us) =
    let rest = user_named name us in if text_eq u.username name then some u else rest

unfoldable pub user_with_id : ℕ → List User → Option User
user_with_id id [] = none
user_with_id id (u ∷ us) = let rest = user_with_id id us in if u.id == id then some u else rest

unfoldable pub set_home : Text → Text → List User → List User
set_home name home [] = []
set_home name home (u ∷ us) =
    let rest = set_home name home us in
    if text_eq u.username name then record u { home_dir = home } ∷ rest else u ∷ rest

-- `INSERT ... ON CONFLICT(username) DO UPDATE SET home_dir`
unfoldable pub put_user : Text → Text → Option User → Db → Db
put_user name home (some u) db = record db { users = set_home name home db.users }
put_user name home none db = record db {
  users =
      db.users
      ++ (record { id = db.next_user; username = name; home_dir = home; created_at = db.clock }
          ∷ []);
  next_user = suc db.next_user;
}

module _ (fault : ℕ → Option Text) where
  unfoldable pub get_user_by_username : Text → Db → Lookup User × Db
  get_user_by_username name = query_row fault (λ db. user_named name db.users)

  unfoldable pub get_user_by_id : ℕ → Db → Lookup User × Db
  get_user_by_id id = query_row fault (λ db. user_with_id id db.users)

  unfoldable pub row_result : {A : Type 0} → Lookup A × Db → Result A × Db
  row_result (r, db) = (to_result r, db)

  -- The error of the insert is dropped.
  unfoldable pub ensure_user : Text → Text → Sql User
  ensure_user name home =
      if is_empty name || is_empty home
      then fail (errorf (text "username and homeDir are required"))
      else do
        try (exec fault (λ db. put_user name home (user_named name db.users) db))
        (λ db. row_result (get_user_by_username name db))

  unfoldable pub list_users : Sql (List User)
  list_users = query fault (λ db. sort (λ a b. less a.username b.username) db.users)
