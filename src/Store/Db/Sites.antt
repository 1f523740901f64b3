-- ===== src/Store/Db/Sites.antt =====
-- The sites of internal/store/sqlite/sqlite.go. The column deleted_at is left out: nothing reads it.
pub mod Laws
pub mod Upsert
pub mod Insert
pub mod Delete
pub mod Written
use ngm.Base.{
  ℕ, suc, ◌+◌, Bool, true, false, not, ◌&&◌, ◌||◌, List, [], ◌∷◌, ◌++◌, Option, none, some, Error,
  Result, ok, err, errorf, ◌==◌, if◌then◌else◌, length, fail, return, ◌>>=◌, ◌>>◌, ltb,
}
use ngm.Base.Sort.{sort}
use ngm.Text.{Text, text, text_eq, is_empty, trim_space, less}
use ngm.Store.{Site}
use ngm.Store.Db.{
  Db, Sql, TargetRow, Lookup, found, no_rows, failed, to_result, exec, query, query_row,
}

-- `normalizeNullableString`
unfoldable pub nullable : Option Text → Option Text
nullable none = none
nullable (some s) = if is_empty (trim_space s) then none else some (trim_space s)

-- `scanSite`: what a row is as a `Site`.
unfoldable pub scan_site : Site → Site
scan_site s = record s { parent_domain = nullable s.parent_domain }

unfoldable pub site_of_domain : Text → List Site → Option Site
site_of_domain d [] = none
site_of_domain d (s ∷ ss) =
    let rest = site_of_domain d ss in if text_eq s.domain d then some (scan_site s) else rest

unfoldable pub scan_all : List Site → List Site
scan_all [] = []
scan_all (s ∷ ss) = scan_site s ∷ scan_all ss

unfoldable pub filter_sites : (Site → Bool) → List Site → List Site
filter_sites p [] = []
filter_sites p (s ∷ ss) = let rest = filter_sites p ss in if p s then s ∷ rest else rest

unfoldable pub update_sites : (Site → Site) → Text → List Site → List Site
update_sites f d [] = []
update_sites f d (s ∷ ss) =
    let rest = update_sites f d ss in if text_eq s.domain d then f s ∷ rest else s ∷ rest

-- The columns that `ON CONFLICT(domain) DO UPDATE SET` takes from the new row.
unfoldable pub overwrite : ℕ → Site → Site → Site
overwrite now new s = record s {
  user_id = new.user_id;
  parent_domain = nullable new.parent_domain;
  mode = new.mode;
  webroot = new.webroot;
  php_version = new.php_version;
  enable_http3 = new.enable_http3;
  enabled = new.enabled;
  client_max_body_size = new.client_max_body_size;
  php_time_read = new.php_time_read;
  php_time_send = new.php_time_send;
  updated_at = now;
}

unfoldable pub new_row : ℕ → ℕ → Site → Site
new_row id now new = record new {
  id = id;
  parent_domain = nullable new.parent_domain;
  created_at = now;
  updated_at = now;
  last_render_hash = [];
  last_applied_at = none;
  last_apply_status = [];
  last_apply_error = [];
}

unfoldable pub put_site : Site → Option Site → Db → Db
put_site new (some s) db = record db {
  sites = update_sites (overwrite db.clock new) new.domain db.sites;
}
put_site new none db = record db {
  sites = db.sites ++ (new_row db.next_site db.clock new ∷ []);
  next_site = suc db.next_site;
}

unfoldable pub with_mode : Site → Site
with_mode s = if is_empty s.mode then record s { mode = text "php" } else s

unfoldable pub remove_site_id : ℕ → List Site → List Site
remove_site_id id [] = []
remove_site_id id (s ∷ ss) =
    let rest = remove_site_id id ss in if s.id == id then rest else s ∷ rest

unfoldable pub remove_targets : ℕ → List TargetRow → List TargetRow
remove_targets id [] = []
remove_targets id (t ∷ ts) =
    let rest = remove_targets id ts in if t.site_id == id then rest else t ∷ rest

unfoldable pub is_root_site : Site → Bool
is_root_site s = not_some s.parent_domain
  where
    not_some : Option Text → Bool
    not_some none = true
    not_some (some p) = false

-- `deleteSite` of the tables, without the transaction.
unfoldable pub keep_tables : Db → Db → Db
keep_tables old db = record old { clock = db.clock }

-- `tx.Rollback()` after an error.
unfoldable pub or_roll_back : Db → Result (Unit {0}) × Db → Result (Unit {0}) × Db
or_roll_back old (ok u, db) = (ok u, db)
or_roll_back old (err e, db) = (err e, keep_tables old db)

module _ (fault : ℕ → Option Text) where
  unfoldable pub get_site_by_domain : Text → Db → Lookup Site × Db
  get_site_by_domain d = query_row fault (λ db. site_of_domain d db.sites)

  unfoldable pub upsert_site : Site → Sql Site
  upsert_site s =
      if is_empty s.domain || ((s.user_id == 0) || is_empty s.webroot)
      then fail (errorf (text "domain, user_id, webroot are required"))
      else do
        exec fault (λ db. put_site (with_mode s) (site_of_domain s.domain db.sites) db)
        (λ db. let (r, db') = get_site_by_domain s.domain db in (to_result r, db'))

  unfoldable pub list_sites : Sql (List Site)
  list_sites = query fault (λ db. sort (λ a b. less a.domain b.domain) (scan_all db.sites))

  unfoldable pub list_sites_by_user_id : ℕ → Sql (List Site)
  list_sites_by_user_id id = query fault λ db.
      sort (λ a b. less a.domain b.domain) (scan_all (filter_sites (λ s. s.user_id == id) db.sites))

  unfoldable pub count_root_domains_by_user_id : ℕ → Sql ℕ
  count_root_domains_by_user_id id =
      query fault λ db. length (filter_sites (λ s. (s.user_id == id) && is_root_site s) db.sites)

  unfoldable pub count_subdomains_by_user_id : ℕ → Sql ℕ
  count_subdomains_by_user_id id =
      query fault
        λ db. length (filter_sites (λ s. (s.user_id == id) && not (is_root_site s)) db.sites)

  unfoldable pub disable_site_by_domain : Text → Sql (Unit {0})
  disable_site_by_domain d = exec fault λ db. record db {
    sites =
        update_sites (λ s. record s { enabled = false; updated_at = db.clock }) (trim_space d)
          db.sites;
  }

  unfoldable pub enable_site_by_domain : Text → Sql (Unit {0})
  enable_site_by_domain d = exec fault λ db. record db {
    sites =
        update_sites (λ s. record s { enabled = true; updated_at = db.clock }) (trim_space d)
          db.sites;
  }

  -- The rows of apply_runs are left out: nothing writes or reads them.
  unfoldable pub delete_rows : ℕ → Sql (Unit {0})
  delete_rows id = do
    exec fault (λ db. record db { targets = remove_targets id db.targets })
    exec fault (λ db. db)
    exec fault (λ db. record db { sites = remove_site_id id db.sites })
    exec fault (λ db. db)

  unfoldable pub delete_found : Db → Lookup Site → Sql (Unit {0})
  delete_found old (found s) db = or_roll_back old (delete_rows s.id db)
  delete_found old no_rows db = (to_result no_rows, db)
  delete_found old (failed e) db = (err e, db)

  unfoldable pub delete_site_by_domain : Text → Sql (Unit {0})
  delete_site_by_domain d = do
    exec fault (λ db. db)
    (λ db.
        let (r, db') = query_row fault (λ t. site_of_domain (trim_space d) t.sites) db in
        delete_found db r db')

  unfoldable pub update_apply_result : Text → Text → Text → Text → Sql (Unit {0})
  update_apply_result d status message hash = exec fault λ db. record db {
    sites =
        update_sites
          (λ s. record s {
            last_apply_status = status;
            last_apply_error = message;
            last_render_hash = hash;
            last_applied_at = some db.clock;
          })
          d db.sites;
  }
