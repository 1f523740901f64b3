-- ===== src/Backup/Build/Laws.antt =====
-- Whose rows `buildDump` of internal/backup/backup.go puts into a dump.
use ngm.Base.{
  ℕ, ◌≡◌, refl, sym, subst, ap, ◌∙◌, true, List, [], ◌∷◌, ◌++◌, Option, none, some, Result, ok, err,
  Bool-cases, Option-cases, inl, inr, map, All, All-append, bind_ok, try,
}
use ngm.Base.Yields.{Yields, return-Yields, fail-Yields, any-Yields, >>=-Yields}
use ngm.Base.Sort.{sort, sort-All}
use ngm.Text.{Text, text_eq, less}
use ngm.Text.Laws.{text_eq_iff}
use ngm.Store.{User, Site, PanelUser, Package}
use ngm.Store.Db.{Db, query}
use ngm.Store.Db.Users.{list_users}
use ngm.Store.Db.PanelUsers.{list_panel_users}
use ngm.Store.Db.Packages.{list_packages}
use ngm.Store.Db.Sites.{list_sites_by_user_id}
use ngm.Store.Db.Targets.{list_proxy_targets_by_site_id}
use ngm.Backup.{ManifestSubject, Manifest, Dump, BackupOptions}
use ngm.Backup.Build.{
  or_user, user_by_name, site_dump, panel_dump, nothing_owned, user_dump, with_user, users_of,
  reseller_name, panel_dumps, dump_sites, dump_package, dump_users, dump_scope, if_scope,
  build_dump,
}
use ngm.Backup.Scope.{is_included, scope_of}

query_ok :
    {A : Type 0} (fault : ℕ → Option Text) (f : Db → A) (db : Db) (a : A)
    → (query fault f db).0 ≡ ok a
    → f db ≡ a
unfolding query
query_ok fault f db a e = elim (Option-cases (fault db.clock)) [
  | inl e' ↦ (let same : ok (f db) ≡ ok a = rw (e', query) at e in cc)
  | inr (m, e') ↦ (let no : err _ ≡ ok a = rw (e', query) at e in cc)
]

-- A user that is found by name has this name.
user_by_name-name :
    (name : Text) (us : List User) (u : User)
    → user_by_name name us ≡ some u
    → text_eq u.username name ≡ true
unfolding user_by_name or_user
user_by_name-name name [] u h = cc
user_by_name-name name (v ∷ us) u h = elim (Option-cases (user_by_name name us)) [
  | inr (w, e) ↦ user_by_name-name name us u (e ∙ (rw e at h))
  | inl e ↦ elim (Bool-cases (text_eq v.username name)) [
    | inl f ↦
        (let same : some v ≡ some u = rw (e, f) at h in
          let is_u : v ≡ u = cc in ap (λ (x : User). text_eq x.username name) (sym is_u) ∙ f)
    | inr f ↦ (let no : none ≡ some u = rw (e, f) at h in cc)
  ]
]

module _ (N : Text → Type 0) where
  -- Every included panel user of the list has a name of this kind.
  abbrev pub Covers : List Text → PanelUser → Type 0
  Covers names pu = is_included pu.username names ≡ true → N pu.username

  abbrev pub AllNamed : {A : Type 0} → (A → Text) → List A → Type 0
  AllNamed name xs = All (λ x. N (name x)) xs

  -- The names in a dump.
  abbrev pub AllOf : Manifest × Dump → Type 0
  AllOf x =
      AllNamed (λ d. d.username) x.1.panel_users
      × AllNamed (λ u. u.username) x.1.users
      × AllNamed (λ s. s.owner_username) x.1.sites

module _ (fault : ℕ → Option Text) (range_map : List User → List User)
    (ranges : (P : User → Type 0) (us : List User) → All P us → All P (range_map us))
    (N : Text → Type 0) where
  panel_dumps-Yields :
      (names : List Text) (pus : List PanelUser)
      → All (Covers N names) pus
      → Yields (AllNamed N (λ d. d.username)) (panel_dumps fault range_map names pus)
  unfolding panel_dumps panel_dump
  panel_dumps-Yields names [] c = return-Yields [] tt
  panel_dumps-Yields names (pu ∷ pus) c = elim (Bool-cases (is_included pu.username names)) [
    | inr e ↦ rw e (panel_dumps-Yields names pus c.1)
    | inl e ↦ rw e (
        >>=-Yields (any-Yields (reseller_name fault range_map pu.reseller_id)) λ name _.
          >>=-Yields (panel_dumps-Yields names pus c.1)
            λ others h. return-Yields (panel_dump pu name ∷ others) (c.0 e, h))
  ]

  dump_sites-Yields :
      (owner : Text) (ss : List Site)
      → N owner
      → Yields
          (λ o. AllNamed N (λ s. s.owner_username) o.sites)
          (dump_sites fault range_map owner ss)
  unfolding dump_sites site_dump
  dump_sites-Yields owner [] n = return-Yields nothing_owned tt
  dump_sites-Yields owner (s ∷ ss) n =
      >>=-Yields (any-Yields (try (list_proxy_targets_by_site_id fault s.id)))
        λ targets _. >>=-Yields (dump_sites-Yields owner ss n) λ rest h. return-Yields _ (n, h)

  dump_users-Yields :
      (ps : List Package) (us : List User)
      → AllNamed N (λ u. u.username) us
      → Yields (λ o. AllNamed N (λ s. s.owner_username) o.sites) (dump_users fault range_map ps us)
  unfolding dump_users
  dump_users-Yields ps [] n = return-Yields nothing_owned tt
  dump_users-Yields ps (u ∷ us) n =
      >>=-Yields (any-Yields (list_sites_by_user_id fault u.id)) λ sites _.
        >>=-Yields (dump_sites-Yields u.username sites n.0) λ of_sites h.
          >>=-Yields (any-Yields (dump_package fault range_map u ps)) λ packages _.
            >>=-Yields (dump_users-Yields ps us n.1) λ rest k. return-Yields _ (
              All-append _ (of_sites.sites ++ []) rest.sites (All-append _ of_sites.sites [] h tt)
                k)

  users_of-All :
      (names : List Text) (us : List User) (pus : List PanelUser)
      → All (Covers N names) pus
      → AllNamed N (λ u. u.username) (users_of names us pus)
  unfolding users_of with_user
  users_of-All names us [] c = tt
  users_of-All names us (pu ∷ pus) c = elim (Bool-cases (is_included pu.username names)) [
    | inr e ↦ rw e (users_of-All names us pus c.1)
    | inl e ↦ elim (Option-cases (user_by_name pu.username us)) [
      | inl f ↦ rw (e, f) (users_of-All names us pus c.1)
      | inr (u, f) ↦
          rw (e, f)
            (
              subst N
                  (sym
                    ((text_eq_iff u.username pu.username).0 (user_by_name-name pu.username us u f)))
                  (c.0 e),
              users_of-All names us pus c.1,
            )
    ]
  ]

  map-All :
      (us : List User)
      → AllNamed N (λ u. u.username) us
      → AllNamed N (λ u. u.username) (map user_dump us)
  unfolding user_dump
  map-All [] n = tt
  map-All (u ∷ us) n = (n.0, map-All us n.1)

  dump_scope-Yields :
      (opts : BackupOptions) (pus : List PanelUser) (us : List User) (names : List Text)
      (subject : ManifestSubject)
      → All (Covers N names) pus
      → Yields (AllOf N) (dump_scope fault range_map opts pus us (names, subject))
  unfolding dump_scope
  dump_scope-Yields opts pus us names subject c =
      let owners = users_of-All names us pus c in
      >>=-Yields (panel_dumps-Yields names pus c) λ panel h.
        >>=-Yields (any-Yields (list_packages fault)) λ ps _.
          >>=-Yields
            (dump_users-Yields ps (range_map (users_of names us pus))
              (ranges (λ u. N u.username) (users_of names us pus) owners))
            λ owned k. return-Yields _ (
              sort-All _ (λ d. N d.username) panel h,
              sort-All _ (λ u. N u.username) (map user_dump (users_of names us pus))
                  (map-All (users_of names us pus) owners),
              k,
            )

  if_scope-Yields :
      (opts : BackupOptions) (pus : List PanelUser) (us : List User)
      (r : Result (List Text × ManifestSubject))
      → ((names : List Text) (subject : ManifestSubject)
          → r ≡ ok (names, subject)
          → All (Covers N names) pus)
      → Yields (AllOf N) (if_scope fault range_map opts pus us r)
  unfolding if_scope
  if_scope-Yields opts pus us (err e) c = fail-Yields e
  if_scope-Yields opts pus us (ok (names, subject)) c =
      dump_scope-Yields opts pus us names subject (c names subject refl)

  pub build_dump-AllOf :
      (opts : BackupOptions) (db : Db) (x : Manifest × Dump)
      → ((names : List Text) (subject : ManifestSubject)
          → scope_of opts (sort (λ (a b : PanelUser). less a.username b.username) db.panel_users)
            ≡ ok (names, subject)
          → All
              (Covers N names)
              (sort (λ (a b : PanelUser). less a.username b.username) db.panel_users))
      → (build_dump fault range_map opts db).0 ≡ ok x
      → AllOf N x
  unfolding build_dump list_panel_users
  build_dump-AllOf opts db x c e =
      let (pus, ran, rest) = bind_ok (list_panel_users fault) _ db x e in
      let is_sorted = sym (query_ok fault _ db pus (ap (λ y. y.0) ran)) in
      let covered : (names : List Text) (subject : ManifestSubject)
          → scope_of opts pus ≡ ok (names, subject)
          → All (Covers N names) pus =
        rw is_sorted c in
      (>>=-Yields (any-Yields (list_users fault))
          λ us _. if_scope-Yields opts pus us (scope_of opts pus) covered).yielded
        _ x rest
