-- ===== src/Store/Db.antt =====
-- The tables of internal/store/sqlite/sqlite.go as lists of rows, and statements on them. Each call of
-- the database may fail, and then it changes nothing; the time of a row is the number of the call.
-- The children are the functions of the store, by table.
pub mod Users
pub mod Sites
pub mod Targets
pub mod Packages
pub mod PanelUsers
pub mod Done
use ngm.Base.{
  ℕ, suc, Bool, true, false, List, [], ◌∷◌, Option, none, some, Error, Result, ok, err, errorf, M,
}
use ngm.Text.{Text, text}
use ngm.Store.{User, Site, PanelUser, Package, UserPackage}

pub record TargetRow : Type 0 where
  pub id : ℕ
  pub site_id : ℕ
  pub target : Text
  pub weight : ℕ
  pub is_backup : Bool
  pub enabled : Bool

pub record Db : Type 0 where
  pub users : List User
  pub sites : List Site
  pub targets : List TargetRow
  pub panel_users : List PanelUser
  pub packages : List Package
  pub user_packages : List UserPackage
  -- The ids that the next inserts take.
  pub next_user : ℕ
  pub next_site : ℕ
  pub next_target : ℕ
  pub next_package : ℕ
  pub next_user_package : ℕ
  pub next_panel_user : ℕ
  pub clock : ℕ

abbrev pub Sql : Type 0 → Type 0
Sql A = M Db A

-- One row, no row (`sql.ErrNoRows`), or another error.
pub data Lookup (A : Type 0) : Type 0 where
  found : A → Lookup A
  no_rows : Lookup A
  failed : Error → Lookup A

unfoldable pub to_result : {A : Type 0} → Lookup A → Result A
to_result (found a) = ok a
to_result no_rows = err (errorf (text "sql: no rows in result set"))
to_result (failed e) = err e

unfoldable pub of_option : {A : Type 0} → Option A → Lookup A
of_option none = no_rows
of_option (some a) = found a

abbrev pub tick_db : Db → Db
tick_db db = record db { clock = suc db.clock }

module _ (fault : ℕ → Option Text) where
  unfoldable pub exec : (Db → Db) → Sql (Unit {0})
  exec f db = elim (fault db.clock) [
    | none ↦ (ok tt, tick_db (f db))
    | some m ↦ (err (errorf m), tick_db db)
  ]

  unfoldable pub query : {A : Type 0} → (Db → A) → Sql A
  query f db = elim (fault db.clock) [
    | none ↦ (ok (f db), tick_db db)
    | some m ↦ (err (errorf m), tick_db db)
  ]

  -- A query for one row.
  unfoldable pub query_row : {A : Type 0} → (Db → Option A) → Db → Lookup A × Db
  query_row f db = elim (fault db.clock) [
    | none ↦ (of_option (f db), tick_db db)
    | some m ↦ (failed (errorf m), tick_db db)
  ]
