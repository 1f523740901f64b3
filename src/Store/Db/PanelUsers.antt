-- ===== src/Store/Db/PanelUsers.antt =====
-- The statements on panel users of internal/store/sqlite/sqlite.go that the login does not run. What a
-- foreign key refuses is one of the failures of a call.
use ngm.Base.{
  ℕ, suc, ◌≡◌, refl, ap, ◌∙◌, Bool, false, List, [], ◌∷◌, ◌++◌, Option, none, some, Result, ok,
  ◌==◌, if◌then◌else◌, arith, ◌>>◌, map,
}
use ngm.Base.Sort.{sort}
use ngm.Text.{Text, text, text_eq, trim_space, less, is_empty}
use ngm.Store.{PanelUser, Package, UserPackage}
use ngm.Store.PanelUsers.{get_panel_user_by_username, update_rows}
use ngm.Store.Db.{Db, Sql, Lookup, exec, query, query_row, of_option, to_result}
use ngm.Store.Db.Users.{row_result}
use ngm.Store.Db.Packages.{remove_assignments}
use ngm.Store.Db.Done.{exec-then, query_row-done}

unfoldable pub panel_user_with_id : ℕ → List PanelUser → Option PanelUser
panel_user_with_id id [] = none
panel_user_with_id id (u ∷ us) =
    let rest = panel_user_with_id id us in if u.id == id then some u else rest

unfoldable pub update_named : (PanelUser → PanelUser) → Text → List PanelUser → List PanelUser
update_named f name [] = []
update_named f name (u ∷ us) =
    let rest = update_named f name us in if text_eq u.username name then f u ∷ rest else u ∷ rest

-- What `ON CONFLICT(username) DO UPDATE SET` sets.
unfoldable pub recreated : ℕ → Text → Text → Bool → PanelUser → PanelUser
recreated now hash role enabled u = record u {
  password_hash = hash;
  role = role;
  enabled = enabled;
  updated_at = now;
}

unfoldable pub new_panel_user : ℕ → ℕ → Text → Text → Text → Bool → PanelUser
new_panel_user id now name hash role enabled = record {
  id = id;
  username = name;
  password_hash = hash;
  role = role;
  enabled = enabled;
  reseller_id = none;
  system_user = [];
  failed_attempts = 0;
  locked_until = none;
  created_by = none;
  owner_id = none;
  last_login_at = none;
  created_at = now;
  updated_at = now;
}

unfoldable pub put_panel_user : Text → Text → Text → Bool → Option PanelUser → Db → Db
put_panel_user name hash role enabled (some u) db = record db {
  panel_users = update_named (recreated db.clock hash role enabled) name db.panel_users;
}
put_panel_user name hash role enabled none db = record db {
  panel_users =
      db.panel_users ++ (new_panel_user db.next_panel_user db.clock name hash role enabled ∷ []);
  next_panel_user = suc db.next_panel_user;
}

-- What `UpdatePanelUser` sets of a row.
unfoldable pub updated : ℕ → PanelUser → PanelUser → PanelUser
updated now new u = record u {
  password_hash = new.password_hash;
  role = new.role;
  enabled = new.enabled;
  reseller_id = new.reseller_id;
  system_user = new.system_user;
  failed_attempts = new.failed_attempts;
  locked_until = new.locked_until;
  created_by = new.created_by;
  owner_id = new.owner_id;
  updated_at = now;
}

unfoldable pub remove_panel_user : ℕ → List PanelUser → List PanelUser
remove_panel_user id [] = []
remove_panel_user id (u ∷ us) =
    let rest = remove_panel_user id us in if u.id == id then rest else u ∷ rest

-- `ON DELETE SET NULL`
unfoldable pub unless_id : ℕ → Option ℕ → Option ℕ
unless_id id none = none
unless_id id (some n) = if n == id then none else some n

unfoldable pub role_or_admin : Text → Text
role_or_admin [] = text "admin"
role_or_admin (c ∷ role) = c ∷ role

unfoldable pub of_reseller : ℕ → List PanelUser → List PanelUser
of_reseller id [] = []
of_reseller id (u ∷ us) =
    let rest = of_reseller id us in if is_id u.reseller_id then u ∷ rest else rest
  where
    is_id : Option ℕ → Bool
    is_id none = false
    is_id (some n) = n == id

module _ (fault : ℕ → Option Text) where
  unfoldable pub panel_user_named : Text → Db → Lookup PanelUser × Db
  panel_user_named name =
      query_row fault (λ db. get_panel_user_by_username (trim_space name) db.panel_users)

  unfoldable pub get_panel_user_by_id : ℕ → Db → Lookup PanelUser × Db
  get_panel_user_by_id id = query_row fault (λ db. panel_user_with_id id db.panel_users)

  unfoldable pub create_panel_user : Text → Text → Text → Bool → Sql PanelUser
  create_panel_user name hash role enabled = do
    exec fault λ db.
        put_panel_user (trim_space name) hash (role_or_admin role) enabled
          (get_panel_user_by_username (trim_space name) db.panel_users) db
    (λ db. row_result fault (panel_user_named name db))

  unfoldable pub list_panel_users : Sql (List PanelUser)
  list_panel_users = query fault (λ db. sort (λ a b. less a.username b.username) db.panel_users)

  unfoldable pub list_panel_users_by_reseller : ℕ → Sql (List PanelUser)
  list_panel_users_by_reseller id =
      query fault (λ db. sort (λ a b. less a.username b.username) (of_reseller id db.panel_users))

  unfoldable pub update_panel_user : PanelUser → Sql PanelUser
  update_panel_user u = do
    exec fault
        λ db. record db { panel_users = update_rows (updated db.clock u) u.id db.panel_users }
    (λ db. row_result fault (get_panel_user_by_id u.id db))

  -- With what its foreign keys cascade to.
  unfoldable pub delete_panel_user : ℕ → Sql (Unit {0})
  delete_panel_user id = exec fault λ db. record db {
    panel_users = remove_panel_user id db.panel_users;
    packages =
        map (λ (p : Package). record p { created_by = unless_id id p.created_by }) db.packages;
    user_packages =
        map (λ (a : UserPackage). record a { assigned_by = unless_id id a.assigned_by })
          (remove_assignments id db.user_packages);
  }

recreated-username :
    (now : ℕ) (hash role : Text) (enabled : Bool) (u : PanelUser)
    → (recreated now hash role enabled u).username ≡ u.username
unfolding recreated
recreated-username now hash role enabled u = refl

role_or_admin-cases :
    (role : Text) → role_or_admin role ≡ (if is_empty role then text "admin" else role)
unfolding role_or_admin is_empty
role_or_admin-cases [] = refl
role_or_admin-cases (c ∷ role) = refl

get_panel_user-update_named :
    (f : PanelUser → PanelUser) (name : Text) (us : List PanelUser) (u : PanelUser)
    → ((v : PanelUser) → (f v).username ≡ v.username)
    → get_panel_user_by_username name us ≡ some u
    → get_panel_user_by_username name (update_named f name us) ≡ some (f u)
unfolding get_panel_user_by_username update_named
get_panel_user-update_named f name [] u k h = cc
get_panel_user-update_named f name (v ∷ us) u k h =
    ground (arith, get_panel_user-update_named f name us u k, k v)

module _ (fault : ℕ → Option Text) (no_fault : (n : ℕ) → fault n ≡ none) where
  -- Where no call fails, creating a panel user whose name is taken answers with the user of this name,
  -- with the new password, role and state, the role admin for a blank one; the rest of the row is kept.
  pub create_panel_user-taken :
      (name hash role : Text) (enabled : Bool) (u : PanelUser) (db : Db)
      → get_panel_user_by_username (trim_space name) db.panel_users ≡ some u
      → (create_panel_user fault name hash role enabled db).0
        ≡ ok (record u {
          password_hash = hash;
          role = if is_empty role then text "admin" else role;
          enabled = enabled;
          updated_at = db.clock;
        })
  unfolding create_panel_user panel_user_named row_result to_result of_option put_panel_user
      recreated
  create_panel_user-taken name hash role enabled u db h =
      ap (λ (x : Result PanelUser × Db). x.0)
        (exec-then fault no_fault
          (λ db.
            put_panel_user (trim_space name) hash (role_or_admin role) enabled
              (get_panel_user_by_username (trim_space name) db.panel_users) db)
          _ db)
      ∙ rw
          (
            h,
            query_row-done fault no_fault
                (λ t. get_panel_user_by_username (trim_space name) t.panel_users),
            get_panel_user-update_named (recreated db.clock hash (role_or_admin role) enabled)
                (trim_space name) db.panel_users u
                (recreated-username db.clock hash (role_or_admin role) enabled) h,
          )
          (ap
            (λ (r : Text). ok (record u {
              password_hash = hash;
              role = r;
              enabled = enabled;
              updated_at = db.clock;
            }))
            (role_or_admin-cases role))
