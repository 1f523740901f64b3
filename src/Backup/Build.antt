-- ===== src/Backup/Build.antt =====
-- `buildDump` of internal/backup/backup.go, over the database.
pub mod Laws
pub mod Whole
use ngm.Base.{
  ℕ, Bool, true, false, ◌&&◌, ◌||◌, List, [], ◌∷◌, ◌++◌, Option, none, some, Error, Result, ok, err,
  errorf, if◌then◌else◌, map, return, fail, try, ◌>>=◌, ◌>>◌,
}
use ngm.Base.Sort.{sort}
use ngm.Text.{Text, text, text_eq, trim_space, less}
use ngm.Nginx.{UpstreamTarget}
use ngm.Store.{User, Site, PanelUser, Package, UserPackage}
use ngm.Store.Db.{Db, Sql, Lookup, found, no_rows, failed}
use ngm.Store.Db.Users.{list_users}
use ngm.Store.Db.PanelUsers.{list_panel_users, get_panel_user_by_id}
use ngm.Store.Db.Packages.{list_packages, get_user_package, package_with_id}
use ngm.Store.Db.Sites.{list_sites_by_user_id}
use ngm.Store.Db.Targets.{list_proxy_targets_by_site_id}
use ngm.Web.Access.{is_id}
use ngm.Backup.{
  ManifestSubject, Manifest, PanelUserDump, UserDump, PackageDump, UserPackageDump, SiteDump,
  ProxyTargetDump, Dump, BackupOptions,
}
use ngm.Backup.Scope.{is_included, scope_of}

unfoldable pub or_user : Option User → Option User → Option User
or_user (some u) o = some u
or_user none o = o

-- `userByName[name]`
unfoldable pub user_by_name : Text → List User → Option User
user_by_name name [] = none
user_by_name name (u ∷ us) =
    or_user (user_by_name name us) (if text_eq u.username name then some u else none)

unfoldable pub package_dump_from_store : Package → PackageDump
package_dump_from_store p = record { name = p.name; limits = p.limits }

unfoldable pub site_dump : Text → Site → SiteDump
site_dump owner s = record {
  owner_username = owner;
  domain = s.domain;
  parent_domain = s.parent_domain;
  mode = s.mode;
  webroot = s.webroot;
  php_version = s.php_version;
  enable_http3 = s.enable_http3;
  enabled = s.enabled;
  client_max_body = s.client_max_body_size;
  php_time_read = s.php_time_read;
  php_time_send = s.php_time_send;
}

unfoldable pub target_dumps : Text → List UpstreamTarget → List ProxyTargetDump
target_dumps domain [] = []
target_dumps domain (t ∷ ts) =
    record {
      site_domain = domain;
      target = t.addr;
      weight = t.weight;
      is_backup = t.is_backup;
      enabled = t.enabled;
    }
    ∷ target_dumps domain ts

-- Targets that cannot be read are left out.
unfoldable pub targets_or_none : Result (List UpstreamTarget) → List UpstreamTarget
targets_or_none (ok ts) = ts
targets_or_none (err e) = []

unfoldable pub name_of_reseller : Lookup PanelUser → Text
name_of_reseller (found r) = r.username
name_of_reseller no_rows = []
name_of_reseller (failed e) = []

unfoldable pub panel_dump : PanelUser → Text → PanelUserDump
panel_dump pu reseller_name = record {
  username = pu.username;
  password_hash = pu.password_hash;
  role = pu.role;
  enabled = pu.enabled;
  reseller_name = reseller_name;
  system_user = pu.system_user;
}

unfoldable pub dumped_package : Text → Option Package → List UserPackageDump
dumped_package username none = []
dumped_package username (some p) = record { username = username; package_name = p.name } ∷ []

-- The sites of the users, their targets, and the packages that the users have.
pub record Owned : Type 0 where
  pub sites : List SiteDump
  pub targets : List ProxyTargetDump
  pub packages : List UserPackageDump

abbrev pub nothing_owned : Owned
nothing_owned = record { sites = []; targets = []; packages = [] }

abbrev pub both_owned : Owned → Owned → Owned
both_owned a b = record {
  sites = a.sites ++ b.sites;
  targets = a.targets ++ b.targets;
  packages = a.packages ++ b.packages;
}

unfoldable pub user_dump : User → UserDump
user_dump u = record { username = u.username; home_dir = u.home_dir }

unfoldable pub with_user : Option User → List User → List User
with_user none us = us
with_user (some u) us = u ∷ us

-- The system's users behind the included panel users, in their order.
unfoldable pub users_of : List Text → List User → List PanelUser → List User
users_of names us [] = []
users_of names us (pu ∷ pus) =
    let rest = users_of names us pus in
    if is_included pu.username names then with_user (user_by_name pu.username us) rest else rest

-- `range_map` is the order in which Go ranges over the map of the users by their id.
module _ (fault : ℕ → Option Text) (range_map : List User → List User) where
  unfoldable pub reseller_name : Option ℕ → Sql Text
  reseller_name none = return []
  reseller_name (some id) =
      λ db. let (row, db') = get_panel_user_by_id fault id db in (ok (name_of_reseller row), db')

  unfoldable pub panel_dumps : List Text → List PanelUser → Sql (List PanelUserDump)
  panel_dumps names [] = return []
  panel_dumps names (pu ∷ pus) =
      let rest = panel_dumps names pus in
      if is_included pu.username names
      then (do
        name ← reseller_name pu.reseller_id
        others ← rest
        return (panel_dump pu name ∷ others))
      else rest

  unfoldable pub dump_sites : Text → List Site → Sql Owned
  dump_sites owner [] = return nothing_owned
  dump_sites owner (s ∷ ss) = do
    targets ← try (list_proxy_targets_by_site_id fault s.id)
    rest ← dump_sites owner ss
    return (
        both_owned
          (record {
            sites = site_dump owner s ∷ [];
            targets = target_dumps s.domain (targets_or_none targets);
            packages = [];
          })
          rest)

  unfoldable pub package_found :
      Text → List Package → Lookup (UserPackage × Package) → Sql (List UserPackageDump)
  package_found username ps (found up) =
      return (dumped_package username (package_with_id (up.0.package_id) ps))
  package_found username ps no_rows = return []
  package_found username ps (failed e) = fail e

  unfoldable pub dump_package : User → List Package → Sql (List UserPackageDump)
  dump_package u ps db =
      let (row, db') = get_user_package fault u.id db in package_found u.username ps row db'

  unfoldable pub dump_users : List Package → List User → Sql Owned
  dump_users ps [] = return nothing_owned
  dump_users ps (u ∷ us) = do
    sites ← list_sites_by_user_id fault u.id
    of_sites ← dump_sites u.username sites
    packages ← dump_package u ps
    rest ← dump_users ps us
    return (both_owned (both_owned of_sites (record nothing_owned { packages = packages })) rest)

  unfoldable pub manifest_of : BackupOptions → ManifestSubject → Manifest
  manifest_of opts subject = record {
    schema_version = 1;
    created_at = opts.now;
    node_id = opts.node_id;
    scope = opts.scope;
    driver = opts.driver;
    subject = subject;
    include_certs = opts.include_certs;
  }

  unfoldable pub dump_scope :
      BackupOptions
      → List PanelUser
      → List User
      → List Text × ManifestSubject
      → Sql (Manifest × Dump)
  dump_scope opts pus us (names, subject) = do
    panel ← panel_dumps names pus
    ps ← list_packages fault
    owned ← dump_users ps (range_map (users_of names us pus))
    return (
      manifest_of opts subject,
      record {
        panel_users = sort (λ (a b : PanelUserDump). less a.username b.username) panel;
        users =
            sort (λ (a b : UserDump). less a.username b.username)
              (map user_dump (users_of names us pus));
        packages =
            sort (λ (a b : PackageDump). less a.name b.name) (map package_dump_from_store ps);
        user_packages = owned.packages;
        sites = owned.sites;
        proxy_targets = owned.targets;
      },
    )

  unfoldable pub if_scope :
      BackupOptions
      → List PanelUser
      → List User
      → Result (List Text × ManifestSubject)
      → Sql (Manifest × Dump)
  if_scope opts pus us (err e) = fail e
  if_scope opts pus us (ok scope) = dump_scope opts pus us scope

  unfoldable pub build_dump : BackupOptions → Sql (Manifest × Dump)
  build_dump opts = do
    pus ← list_panel_users fault
    us ← list_users fault
    if_scope opts pus us (scope_of opts pus)
