-- ===== src/Store/Db/Packages.antt =====
-- The packages of internal/store/sqlite/sqlite.go and the limits that they give.
pub mod Laws
use ngm.Base.{
  ℕ, suc, ◌+◌, Bool, true, false, ◌||◌, List, [], ◌∷◌, ◌++◌, Option, none, some, Error, Result, ok,
  err, errorf, ◌==◌, if◌then◌else◌, ltb, fail, ◌>>=◌, ◌>>◌,
}
use ngm.Text.{Text, text, text_eq}
use ngm.Text.Decimal.{decimal}
use ngm.Store.{Package, UserPackage, UserLimits, unlimited_limits, zero_limits}
use ngm.Store.Db.{Db, Sql, Lookup, found, no_rows, failed, to_result, exec, query, query_row}

unfoldable pub package_with_id : ℕ → List Package → Option Package
package_with_id id [] = none
package_with_id id (p ∷ ps) =
    let rest = package_with_id id ps in if p.id == id then some p else rest

unfoldable pub update_packages : (Package → Package) → ℕ → List Package → List Package
update_packages f id [] = []
update_packages f id (p ∷ ps) =
    let rest = update_packages f id ps in if p.id == id then f p ∷ rest else p ∷ rest

unfoldable pub remove_package : ℕ → List Package → List Package
remove_package id [] = []
remove_package id (p ∷ ps) =
    let rest = remove_package id ps in if p.id == id then rest else p ∷ rest

unfoldable pub assignment_of : ℕ → List UserPackage → Option UserPackage
assignment_of user [] = none
assignment_of user (a ∷ as') =
    let rest = assignment_of user as' in if a.user_id == user then some a else rest

unfoldable pub count_assigned : ℕ → List UserPackage → ℕ
count_assigned pkg [] = 0
count_assigned pkg (a ∷ as') = (if a.package_id == pkg then 1 else 0) + count_assigned pkg as'

unfoldable pub update_assignments :
    (UserPackage → UserPackage) → ℕ → List UserPackage → List UserPackage
update_assignments f user [] = []
update_assignments f user (a ∷ as') =
    let rest = update_assignments f user as' in if a.user_id == user then f a ∷ rest else a ∷ rest

unfoldable pub remove_assignments : ℕ → List UserPackage → List UserPackage
remove_assignments user [] = []
remove_assignments user (a ∷ as') =
    let rest = remove_assignments user as' in if a.user_id == user then rest else a ∷ rest

-- `INSERT ... ON CONFLICT(user_id) DO UPDATE`
unfoldable pub put_assignment : ℕ → ℕ → ℕ → Option UserPackage → Db → Db
put_assignment user pkg by (some a) db = record db {
  user_packages =
      update_assignments
        (λ r. record r { package_id = pkg; assigned_by = some by; assigned_at = db.clock }) user
        db.user_packages;
}
put_assignment user pkg by none db = record db {
  user_packages =
      db.user_packages
      ++ (record {
        id = db.next_user_package;
        user_id = user;
        package_id = pkg;
        assigned_by = some by;
        assigned_at = db.clock;
      }
          ∷ []);
  next_user_package = suc db.next_user_package;
}

-- The join of an assignment with its package.
unfoldable pub joined : List Package → Option UserPackage → Option (UserPackage × Package)
joined ps none = none
joined ps (some a) = with_package a (package_with_id a.package_id ps)
  where
    with_package : UserPackage → Option Package → Option (UserPackage × Package)
    with_package a none = none
    with_package a (some p) = some (a, p)

unfoldable pub last_package : List Package → Option Package
last_package [] = none
last_package (p ∷ []) = some p
last_package (p ∷ (q ∷ ps)) = last_package (q ∷ ps)

-- The limits, with `ErrNoPackageAssigned` or another error beside them.
pub data LimitsError : Type 0 where
  no_package_assigned : LimitsError
  other_error : Error → LimitsError

module _ (fault : ℕ → Option Text) where
  unfoldable pub get_package_by_id : ℕ → Db → Lookup Package × Db
  get_package_by_id id = query_row fault (λ db. package_with_id id db.packages)

  unfoldable pub package_result : {A : Type 0} → Lookup A × Db → Result A × Db
  package_result (r, db) = (to_result r, db)

  -- The id of the insert is the last one given.
  unfoldable pub create_package : Package → Sql Package
  create_package p = do
    exec fault λ db. record db {
      packages =
          db.packages
          ++ (record p { id = db.next_package; created_at = db.clock; updated_at = db.clock } ∷ []);
      next_package = suc db.next_package;
    }
    (λ db. package_result (query_row fault (λ t. last_package t.packages) db))

  unfoldable pub update_package : Package → Sql Package
  update_package p = do
    exec fault λ db. record db {
      packages =
          update_packages
            (λ r. record p { id = r.id; created_at = r.created_at; updated_at = db.clock }) p.id
            db.packages;
    }
    (λ db. package_result (get_package_by_id p.id db))

  unfoldable pub refuse_assigned : ℕ → ℕ → Sql (Unit {0})
  refuse_assigned id refs =
      if ltb 0 refs
      then fail (errorf (text "package is assigned to user(s)"))
      else exec fault (λ db. record db { packages = remove_package id db.packages })

  -- The package 1 is protected.
  unfoldable pub delete_package : ℕ → Sql (Unit {0})
  delete_package id =
      if id == 1
      then fail (errorf (text "protected package"))
      else do refs ← query fault (λ db. count_assigned id db.user_packages); refuse_assigned id refs

  unfoldable pub list_packages : Sql (List Package)
  list_packages = query fault (λ db. db.packages)

  unfoldable pub assign_package : ℕ → ℕ → ℕ → Sql (Unit {0})
  assign_package user pkg by =
      exec fault λ db. put_assignment user pkg by (assignment_of user db.user_packages) db

  unfoldable pub unassign_package : ℕ → Sql (Unit {0})
  unassign_package user =
      exec fault (λ db. record db { user_packages = remove_assignments user db.user_packages })

  unfoldable pub get_user_package : ℕ → Db → Lookup (UserPackage × Package) × Db
  get_user_package user =
      query_row fault (λ db. joined db.packages (assignment_of user db.user_packages))

  unfoldable pub limits_found :
      Lookup (UserPackage × Package) × Db → (UserLimits × Option LimitsError) × Db
  limits_found (found up, db) = ((up.1.limits, none), db)
  limits_found (no_rows, db) = ((zero_limits, some no_package_assigned), db)
  limits_found (failed e, db) = ((zero_limits, some (other_error e)), db)

  unfoldable pub get_effective_limits : ℕ → Text → Db → (UserLimits × Option LimitsError) × Db
  get_effective_limits user role db =
      if text_eq role (text "admin") || text_eq role (text "reseller")
      then ((unlimited_limits, none), db)
      else limits_found (get_user_package user db)
