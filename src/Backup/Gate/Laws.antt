-- ===== src/Backup/Gate/Laws.antt =====
-- Whom `handleBackup` of internal/web/server.go lets a session back up.
use ngm.Base.{
  ℕ, ◌≡◌, refl, subst, ap, ◌∙◌, Bool, true, false, not, ◌&&◌, List, [], ◌∷◌, Option, Result, ok,
  err, if◌then◌else◌, Bool-cases, Option-cases, inl, inr, map, All, bind_ok, try, return, ◌>>=◌,
}
use ngm.Text.{Text, text, text_eq, trim_space}
use ngm.Store.{User, PanelUser}
use ngm.Store.PanelUsers.{get_panel_user_by_username}
use ngm.Store.Db.{Db, query_row, Sql}
use ngm.Store.Db.PanelUsers.{panel_user_named}
use ngm.Web.Session.{Session}
use ngm.Web.Login.{Method, method_get, method_post, method_other}
use ngm.Web.Forms.{Form}
use ngm.Backup.{ManifestSubject, Manifest, Dump, BackupOptions}
use ngm.Backup.Build.{build_dump}
use ngm.Backup.Scope.{panel_by_name, scope_of}
use ngm.Backup.Build.Laws.{AllOf, Covers, build_dump-AllOf}
use ngm.Backup.Gate.{
  refused, served, BackupHost, scope_asked, user_asked, Passage, pass, forbidden, invalid_scope,
  under_gate, user_gate, gate, options, reply_of, after_gate, backup_of, backup_by, handle_backup,
}
use ngm.Backup.Gate.Reach.{
  HasRole, IsOwn, passed_under, panel_by_name-found, included-All, IsReached, RowReached, listed,
  listed-reached,
}
use ngm.Backup.Gate.Scopes.{
  names_of, not_both, all_not_user, all_not_reseller, reseller_not_user, map-All,
  user_gate-IsReached, user_scope-IsReached, reseller_scope-IsReached, reseller_row,
}

ok_same : {A : Type 0} {x y : A} → ok x ≡ ok y → x ≡ y
ok_same e = cc

served_from :
    (host : BackupHost) (r : Result (Manifest × Dump)) (m : Manifest) (d : Dump)
    → reply_of host r ≡ served m d
    → r ≡ ok (m, d)
unfolding reply_of
served_from host (ok (m', d')) m d e = let a : m' ≡ m = cc in let b : d' ≡ d = cc in rw (a, b) refl
served_from host (err e') m d e = cc

module _ (sess : Session) (us : List PanelUser) (own : All (IsOwn sess) us)
    (trimmed : trim_space sess.username ≡ sess.username) where
  -- What the gate lets pass takes in names that the session may back up.
  gate-IsReached :
      (host : BackupHost) (opts : BackupOptions) (db : Db) (names : List Text)
      (subject : ManifestSubject)
      → HasRole sess
      → db.panel_users ≡ us
      → (gate host sess opts.scope opts.username db).0 ≡ ok pass
      → scope_of opts (listed us) ≡ ok (names, subject)
      → All (IsReached sess us) names
  unfolding gate scope_of return
  gate-IsReached host opts db names subject role same h e =
      elim (Bool-cases (text_eq opts.scope (text "all"))) [
        | inl f ↦ all_reached f (not_both _ _ _ all_not_user f) (not_both _ _ _ all_not_reseller f)
        | inr f ↦ elim (Bool-cases (text_eq opts.scope (text "reseller"))) [
          | inl g ↦
              reseller_scope-IsReached sess us own trimmed (trim_space opts.username) (listed us)
                (panel_by_name (trim_space opts.username) (listed us)) names subject
                (listed-reached sess us)
                (λ u e'.
                  reseller_row sess us own trimmed opts.username u (passed_under _ (rw (f, g) at h))
                    e')
                (rw (not_both _ _ _ reseller_not_user g, g) at e)
          | inr g ↦ elim (Bool-cases (text_eq opts.scope (text "user"))) [
            | inl k ↦
                user_scope-IsReached sess us own trimmed (trim_space opts.username)
                  (panel_by_name (trim_space opts.username) (listed us)) names subject
                  (λ u e'.
                    let (row, name) =
                      panel_by_name-found (RowReached sess us) (trim_space opts.username)
                        (listed us) u (listed-reached sess us) e' in
                    user_gate-IsReached sess us own trimmed host opts.username db u role same
                      (rw (f, g, k) at h) row name)
                  (rw k at e)
            | inr k ↦ (let no : ok invalid_scope ≡ ok pass = rw (f, g, k) at h in cc)
          ]
        ]
      ]
    where
      all_reached :
          text_eq opts.scope (text "all") ≡ true
          → text_eq opts.scope (text "user") ≡ false
          → text_eq opts.scope (text "reseller") ≡ false
          → All (IsReached sess us) names
      all_reached f u r =
          let admin = passed_under _ (rw f at h) in
          let are : map (λ (u : PanelUser). u.username) (listed us) ≡ names =
            names_of (rw (u, r, f) at e) in
          subst (All (IsReached sess us)) are
            (map-All sess us (listed us) admin (listed-reached sess us))

  included-Covers :
      (names : List Text) (l : List PanelUser)
      → All (IsReached sess us) names
      → All (Covers (IsReached sess us) names) l
  included-Covers names [] h = tt
  included-Covers names (u ∷ l) h =
      ((λ e. included-All (IsReached sess us) u.username names h e), included-Covers names l h)

  after_gate-AllOf :
      (host : BackupHost) (opts : BackupOptions) (db : Db) (m : Manifest) (d : Dump)
      → ((P : User → Type 0) (l : List User) → All P l → All P (host.range_map l))
      → db.panel_users ≡ us
      → (p : Passage)
      → ((names : List Text) (subject : ManifestSubject)
          → p ≡ pass
          → scope_of opts (listed us) ≡ ok (names, subject)
          → All (IsReached sess us) names)
      → (after_gate host opts p db).0 ≡ ok (served m d)
      → AllOf (IsReached sess us) (m, d)
  unfolding after_gate return ◌>>=◌ try
  after_gate-AllOf host opts db m d ranges same pass c e =
      build_dump-AllOf host.fault host.range_map ranges (IsReached sess us) opts db (m, d)
        (λ names subject e'. included-Covers names _ (c names subject refl (rw same at e')))
        (served_from host (build_dump host.fault host.range_map opts db).0 m d (ok_same e))
  after_gate-AllOf host opts db m d ranges same forbidden c e =
      let no : ok (refused 403 (text "forbidden")) ≡ ok (served m d) = e in cc
  after_gate-AllOf host opts db m d ranges same invalid_scope c e =
      let no : ok (refused 400 (text "invalid scope")) ≡ ok (served m d) = e in cc

module _ (sess : Session) where
  query_row-keeps :
      {A : Type 0} (fault : ℕ → Option Text) (f : Db → Option A) (db : Db)
      → (query_row fault f db).1.panel_users ≡ db.panel_users
  unfolding query_row
  query_row-keeps fault f db = elim (Option-cases (fault db.clock)) [
    | inl e ↦ rw (e, query_row) refl
    | inr (m, e) ↦ rw (e, query_row) refl
  ]

  if-keeps :
      (b : Bool) (x y : Sql Passage) (db : Db)
      → (x db).1.panel_users ≡ db.panel_users
      → (y db).1.panel_users ≡ db.panel_users
      → ((if b then x else y) db).1.panel_users ≡ db.panel_users
  if-keeps true x y db h k = h
  if-keeps false x y db h k = k

  gate-keeps :
      (host : BackupHost) (scope user : Text) (db : Db)
      → (gate host sess scope user db).1.panel_users ≡ db.panel_users
  unfolding gate user_gate return under_gate panel_user_named
  gate-keeps host scope user db = if-keeps (text_eq scope (text "all")) _ _ db refl (
      if-keeps (text_eq scope (text "reseller")) _ _ db refl (
        if-keeps (text_eq scope (text "user")) _ _ db
          (if-keeps (text_eq sess.role (text "user") && not (text_eq user sess.username)) _ _ db
            refl
            (if-keeps (text_eq sess.role (text "reseller")) _ _ db
              (query_row-keeps host.fault
                (λ (db' : Db). get_panel_user_by_username (trim_space user) db'.panel_users) db)
              refl))
          refl))

-- A backup that is served holds only panel users, users and owners of sites with names of rows that
-- the session may back up: any for an administrator, else the session's own row, and for a reseller also
-- the rows of its users. The session has one of the roles, its name is trimmed, a row with its name has
-- its id, and the range over a map visits entries of the map.
pub handle_backup-AllOf :
    (host : BackupHost) (sess : Session) (r : Form) (db : Db) (m : Manifest) (d : Dump)
    → ((P : User → Type 0) (us : List User) → All P us → All P (host.range_map us))
    → HasRole sess
    → trim_space sess.username ≡ sess.username
    → All (IsOwn sess) db.panel_users
    → (handle_backup host sess r db).0 ≡ ok (served m d)
    → AllOf (IsReached sess db.panel_users) (m, d)
unfolding handle_backup backup_by return backup_of options
handle_backup-AllOf host sess r db m d ranges role trimmed own e = by_method r.method e
  where
    asked :
        (backup_of host sess r db).0 ≡ ok (served m d)
        → AllOf (IsReached sess db.panel_users) (m, d)
    asked e =
        let opts = options host r (scope_asked sess r) (user_asked sess r) in
        let (p, ran, rest) = bind_ok (gate host sess opts.scope opts.username) _ db _ e in
        after_gate-AllOf sess db.panel_users own trimmed host opts _ m d ranges
          (gate-keeps sess host opts.scope opts.username db) p
          (λ names subject is_pass e'.
            gate-IsReached sess db.panel_users own trimmed host opts db names subject role refl
              (ap (λ x. x.0) ran ∙ ap ok is_pass) e')
          rest

    by_method :
        (method : Method)
        → (backup_by host method sess r db).0 ≡ ok (served m d)
        → AllOf (IsReached sess db.panel_users) (m, d)
    by_method method_get e = asked e
    by_method method_post e = asked e
    by_method method_other e =
        let no : ok (refused 405 (text "method not allowed")) ≡ ok (served m d) = e in cc
