-- ===== src/Backup/Build/Whole.antt =====
-- `buildDump` of internal/backup/backup.go where no call of the database fails.
use ngm.Base.{
  ℕ, ◌≡◌, refl, subst, ap, true, List, [], ◌∷◌, Option, none, some, ok, arith, map, All, All-weaken,
  return, ◌>>=◌,
}
use ngm.Base.Returns.{Returns, return-Returns, try-Returns, >>=-Returns}
use ngm.Base.Sort.{sort, sort-perm}
use mathlib.Core.List.{Perm}
use mathlib.Core.List.Perm
use ngm.Text.{Text, text, text_eq, less}
use ngm.Text.Laws.{text_eq_refl}
use ngm.Store.{User, Site, PanelUser, Package, UserPackage}
use ngm.Store.Db.{Db, of_option, query, tick_db}
use ngm.Store.Db.Done.{query_row-done}
use ngm.Store.Db.Users.{list_users}
use ngm.Store.Db.PanelUsers.{list_panel_users}
use ngm.Store.Db.Packages.{list_packages, get_user_package, joined, assignment_of}
use ngm.Store.Db.Sites.{list_sites_by_user_id}
use ngm.Store.Db.Targets.{list_proxy_targets_by_site_id}
use ngm.Backup.{ManifestSubject, Manifest, Dump, UserPackageDump, PanelUserDump, BackupOptions}
use ngm.Backup.Scope.{is_included, scope_of, subject_of}
use ngm.Backup.Build.{
  panel_dump, nothing_owned, users_of, reseller_name, panel_dumps, dump_sites, package_found,
  dump_package, dump_users, dump_scope, if_scope, build_dump,
}

-- The names of the panel users, in a list of them.
abbrev pub names_in : List PanelUser → List Text
names_in us = map (λ (u : PanelUser). u.username) us

-- A dumped panel user without the name of its reseller, which a dump adds.
abbrev pub own_fields : PanelUserDump → PanelUserDump
own_fields d = record d { reseller_name = [] }

-- What a dump should hold of a panel user, without the name of its reseller.
abbrev pub row_of : PanelUser → PanelUserDump
row_of u = record {
  username = u.username;
  password_hash = u.password_hash;
  role = u.role;
  enabled = u.enabled;
  reseller_name = [];
  system_user = u.system_user;
}

-- What a dump should hold of panel users, without the names of their resellers.
abbrev pub rows_of : List PanelUser → List PanelUserDump
rows_of us = map row_of us

abbrev listed : List PanelUser → List PanelUser
listed us = sort (λ (a b : PanelUser). less a.username b.username) us

module _ (fault : ℕ → Option Text) (no_fault : (n : ℕ) → fault n ≡ none) where
  query-done : {A : Type 0} (f : Db → A) (db : Db) → query fault f db ≡ (ok (f db), tick_db db)
  unfolding query
  query-done f db = rw (query, no_fault db.clock) refl

  query-Returns : {A : Type 0} (f : Db → A) → Returns (λ a. Unit {0}) (query fault f)
  unfolding query
  query-Returns f = record { returned = λ db. (f db, rw (query, no_fault db.clock) refl, tt) }

  module _ (range_map : List User → List User) where
    reseller_name-Returns :
        (o : Option ℕ) → Returns (λ t. Unit {0}) (reseller_name fault range_map o)
    unfolding reseller_name
    reseller_name-Returns none = return-Returns [] tt
    reseller_name-Returns (some id) = record { returned = λ db. (_, refl, tt) }

    panel_dumps-Returns :
        (names : List Text) (us : List PanelUser)
        → All (λ (u : PanelUser). is_included u.username names ≡ true) us
        → Returns (λ ds. map own_fields ds ≡ rows_of us) (panel_dumps fault range_map names us)
    unfolding panel_dumps panel_dump
    panel_dumps-Returns names [] h = return-Returns [] refl
    panel_dumps-Returns names (u ∷ us) h = rw h.0 (
        >>=-Returns (reseller_name-Returns u.reseller_id) λ name _.
          >>=-Returns (panel_dumps-Returns names us h.1)
            λ ds e. return-Returns (panel_dump u name ∷ ds) (ap (λ l. row_of u ∷ l) e))

    dump_sites-Returns :
        (owner : Text) (ss : List Site)
        → Returns (λ o. Unit {0}) (dump_sites fault range_map owner ss)
    unfolding dump_sites
    dump_sites-Returns owner [] = return-Returns nothing_owned tt
    dump_sites-Returns owner (s ∷ ss) =
        >>=-Returns (try-Returns (list_proxy_targets_by_site_id fault s.id))
          λ targets _. >>=-Returns (dump_sites-Returns owner ss) λ rest _. return-Returns _ tt

    package_found-answer :
        (name : Text) (ps : List Package) (o : Option (UserPackage × Package)) (db : Db)
        → (l : List UserPackageDump) × ((package_found fault range_map name ps (of_option o) db).0
            ≡ ok l)
          × Unit {0}
    unfolding package_found of_option return
    package_found-answer name ps none db = ([], refl, tt)
    package_found-answer name ps (some up) db = (_, refl, tt)

    dump_package-Returns :
        (u : User) (ps : List Package) → Returns (λ l. Unit {0}) (dump_package fault range_map u ps)
    unfolding dump_package get_user_package
    dump_package-Returns u ps = record {
      returned = λ db.
          rw
            (query_row-done fault no_fault
              (λ db'. joined db'.packages (assignment_of u.id db'.user_packages)) db)
            (package_found-answer u.username ps _ _);
    }

    dump_users-Returns :
        (ps : List Package) (us : List User)
        → Returns (λ o. Unit {0}) (dump_users fault range_map ps us)
    unfolding dump_users list_sites_by_user_id
    dump_users-Returns ps [] = return-Returns nothing_owned tt
    dump_users-Returns ps (u ∷ us) = >>=-Returns (query-Returns _) λ sites _.
        >>=-Returns (dump_sites-Returns u.username sites) λ of_sites _.
          >>=-Returns (dump_package-Returns u ps)
            λ packages _. >>=-Returns (dump_users-Returns ps us) λ rest _. return-Returns _ tt

    dump_scope-Returns :
        (opts : BackupOptions) (pus : List PanelUser) (us : List User) (names : List Text)
        (subject : ManifestSubject)
        → All (λ (u : PanelUser). is_included u.username names ≡ true) pus
        → Returns
            (λ x. Perm (map own_fields x.1.panel_users) (rows_of pus))
            (dump_scope fault range_map opts pus us (names, subject))
    unfolding dump_scope list_packages
    dump_scope-Returns opts pus us names subject h =
        >>=-Returns (panel_dumps-Returns names pus h) λ panel e.
          >>=-Returns (query-Returns _) λ ps _.
            >>=-Returns (dump_users-Returns ps (range_map (users_of names us pus))) λ owned _.
              return-Returns _ (
                subst (Perm _) e (
                  Perm.map own_fields
                    (sort-perm (λ (a b : PanelUserDump). less a.username b.username) panel)))

    names-included :
        (us : List PanelUser)
        → All (λ (u : PanelUser). is_included u.username (names_in us) ≡ true) us
    unfolding is_included
    names-included [] = tt
    names-included (u ∷ us) = (
      rw (text_eq_refl u.username) refl,
      All-weaken us (λ v h. ground (arith, h)) (names-included us),
    )

    scope_of-all :
        (opts : BackupOptions) (pus : List PanelUser)
        → opts.scope ≡ text "all"
        → scope_of opts pus ≡ ok (names_in pus, subject_of [] 0 0)
    unfolding scope_of text text_eq
    scope_of-all opts pus e = rw e refl

    whole-Returns :
        (opts : BackupOptions) (pus : List PanelUser)
        → opts.scope ≡ text "all"
        → Returns
            (λ x. Perm (map own_fields x.1.panel_users) (rows_of pus))
            (list_users fault >>= λ us. if_scope fault range_map opts pus us (scope_of opts pus))
    unfolding if_scope list_users
    whole-Returns opts pus e = rw (scope_of-all opts pus e) (
        >>=-Returns (query-Returns _) λ us _.
          dump_scope-Returns opts pus us (names_in pus) (subject_of [] 0 0) (names-included pus))

    -- Where no call fails, a dump of all is made, and holds every panel user once.
    pub build_dump-whole :
        (opts : BackupOptions) (db : Db)
        → opts.scope ≡ text "all"
        → (x : Manifest × Dump) × ((build_dump fault range_map opts db).0 ≡ ok x)
          × Perm (map own_fields x.1.panel_users) (rows_of db.panel_users)
    unfolding build_dump list_panel_users ◌>>=◌
    build_dump-whole opts db e =
        let (x, ran, holds) =
          (whole-Returns opts (listed db.panel_users) e).returned (tick_db db) in
        (
          x,
          rw (query-done (λ (t : Db). listed t.panel_users) db) ran,
          Perm.trans holds (
              Perm.map row_of
                (sort-perm (λ (a b : PanelUser). less a.username b.username) db.panel_users)),
        )
