-- ===== src/Sites/Add/Prepare.antt =====
-- What `SiteAdd` of internal/app/site.go does before it writes a row.
use ngm.Base.{
  ℕ, ◌≡◌, refl, ◌∙◌, Bool, ◌||◌, [], ◌∷◌, Option, none, some, ok, errorf, arith, Bool-cases, inl,
  inr, Option-cases, fail, try, ◌>>◌,
}
use ngm.Text.{Text, text, text_eq, is_empty}
use ngm.Store.{User, UserLimits, Package, UserPackage}
use ngm.Store.Db.{Db, Lookup, found, no_rows, failed, exec, query, query_row}
use ngm.Store.Db.Users.{ensure_user, put_user, get_user_by_username, row_result, user_named}
use ngm.Store.Db.Sites.{
  get_site_by_domain, count_root_domains_by_user_id, count_subdomains_by_user_id,
}
use ngm.Store.Db.Packages.{
  get_effective_limits, limits_found, get_user_package, joined, assignment_of,
}
use ngm.Apply.{normalize_domain}
use ngm.Sites.Panel.{
  Act, SiteHost, when, KeepsSites, site_table, Ensures, >>=-KeepsSites, >>-KeepsSites,
  return-KeepsSites, fail-KeepsSites, lift-KeepsSites, if-KeepsSites, on_files-KeepsSites,
  on_db-KeepsSites, on_row-KeepsSites, >>=-Ensures, any-Ensures, lift-Ensures, >>-Ensures,
  return-Ensures,
}
use ngm.Sites.Checks.{
  SiteAddRequest, Checked, check_request, prepare, provision_site, parent_label, check_limits,
  enforce_max_limit, resolve_user_limits_by_username, site_row,
}

module _ (fault : ℕ → Option Text) where
  exec-site_table :
      (f : Db → Db) (db : Db)
      → site_table (f db) ≡ site_table db
      → site_table (exec fault f db).1 ≡ site_table db
  unfolding exec
  exec-site_table f db h = elim (Option-cases (fault db.clock)) [
    | inl e ↦ rw (e, exec) h
    | inr (m, e) ↦ rw (e, exec) refl
  ]

  pub query-site_table :
      {A : Type 0} (f : Db → A) (db : Db) → site_table (query fault f db).1 ≡ site_table db
  unfolding query
  query-site_table f db = elim (Option-cases (fault db.clock)) [
    | inl e ↦ rw (e, query) refl
    | inr (m, e) ↦ rw (e, query) refl
  ]

  pub query_row-site_table :
      {A : Type 0} (f : Db → Option A) (db : Db)
      → site_table (query_row fault f db).1 ≡ site_table db
  unfolding query_row
  query_row-site_table f db = elim (Option-cases (fault db.clock)) [
    | inl e ↦ rw (e, query_row) refl
    | inr (m, e) ↦ rw (e, query_row) refl
  ]

  put_user-site_table :
      (name home : Text) (o : Option User) (db : Db)
      → site_table (put_user name home o db) ≡ site_table db
  unfolding put_user
  put_user-site_table name home none db = refl
  put_user-site_table name home (some u) db = refl

  pub ensure_user-site_table :
      (name home : Text) (db : Db) → site_table (ensure_user fault name home db).1 ≡ site_table db
  unfolding ensure_user get_user_by_username row_result try fail ◌>>◌
  ensure_user-site_table name home db = elim (Bool-cases (is_empty name || is_empty home)) [
    | inl e ↦ rw e refl
    | inr e ↦ rw e (
        query_row-site_table (λ t. user_named name t.users)
          (exec fault (λ t. put_user name home (user_named name t.users) t) db).1
        ∙ exec-site_table (λ t. put_user name home (user_named name t.users) t) db
            (put_user-site_table name home (user_named name db.users) db))
  ]

  limits_found-site_table :
      (x : Lookup (UserPackage × Package) × Db)
      → site_table (limits_found fault x).1 ≡ site_table x.1
  unfolding limits_found
  limits_found-site_table (found a, db) = refl
  limits_found-site_table (no_rows, db) = refl
  limits_found-site_table (failed e, db) = refl

  get_effective_limits-site_table :
      (user : ℕ) (role : Text) (db : Db)
      → site_table (get_effective_limits fault user role db).1 ≡ site_table db
  unfolding get_effective_limits get_user_package
  get_effective_limits-site_table user role db =
      elim (Bool-cases (text_eq role (text "admin") || text_eq role (text "reseller"))) [
        | inl e ↦ rw e refl
        | inr e ↦ rw e (
            limits_found-site_table (get_user_package fault user db)
            ∙ query_row-site_table (λ db. joined db.packages (assignment_of user db.user_packages))
                db)
      ]

module _ (host : SiteHost) where
  open host use {cfg}

  pub resolve-KeepsSites : (name : Text) → KeepsSites (resolve_user_limits_by_username host name)
  unfolding resolve_user_limits_by_username
  resolve-KeepsSites name =
      >>=-KeepsSites (on_row-KeepsSites _ (query_row-site_table host.fault _)) λ row.
        >>=-KeepsSites (lift-KeepsSites _) λ u.
          >>=-KeepsSites
            (on_row-KeepsSites _ (get_effective_limits-site_table host.fault u.id u.role))
            λ l. lift-KeepsSites _

  pub parent_label-KeepsSites :
      (owner : User) (d parent : Text) → KeepsSites (parent_label host owner d parent)
  unfolding parent_label get_site_by_domain
  parent_label-KeepsSites owner d parent =
      if-KeepsSites (is_empty (normalize_domain parent)) (return-KeepsSites []) (
        >>=-KeepsSites (on_row-KeepsSites _ (query_row-site_table host.fault _))
          λ row. lift-KeepsSites _)

  enforce_max_limit-KeepsSites :
      (b : Bool) (message : Text) → KeepsSites (enforce_max_limit host b message)
  unfolding enforce_max_limit
  enforce_max_limit-KeepsSites b message =
      if-KeepsSites b (return-KeepsSites tt) (fail-KeepsSites (errorf message))

  pub check_limits-KeepsSites :
      (l : UserLimits) (id : ℕ) (parent : Text) → KeepsSites (check_limits host l id parent)
  unfolding check_limits count_root_domains_by_user_id count_subdomains_by_user_id
  check_limits-KeepsSites l id [] =
      >>=-KeepsSites (on_db-KeepsSites _ (query-site_table host.fault _))
        λ n. enforce_max_limit-KeepsSites _ _
  check_limits-KeepsSites l id (c ∷ parent) =
      >>=-KeepsSites (on_db-KeepsSites _ (query-site_table host.fault _))
        λ n. enforce_max_limit-KeepsSites _ _

  provision_site-KeepsSites :
      (user home webroot : Text) → KeepsSites (provision_site host user home webroot)
  unfolding provision_site
  provision_site-KeepsSites user home webroot =
      >>-KeepsSites (on_files-KeepsSites _) (on_files-KeepsSites _)

  pub when-KeepsSites : (b : Bool) {m : Act (Unit {0})} → KeepsSites m → KeepsSites (when b m)
  unfolding when
  when-KeepsSites b h = if-KeepsSites b h (return-KeepsSites tt)

  -- Whatever fails, the checks of `SiteAdd` leave the rows of the sites.
  pub prepare-KeepsSites : (req : SiteAddRequest) → KeepsSites (prepare host req)
  unfolding prepare
  prepare-KeepsSites req = >>=-KeepsSites (lift-KeepsSites _) λ c.
      >>=-KeepsSites (on_db-KeepsSites _ (ensure_user-site_table host.fault _ _)) λ u.
        >>=-KeepsSites (resolve-KeepsSites _) λ limits. >>-KeepsSites (lift-KeepsSites _) (
          >>=-KeepsSites (parent_label-KeepsSites u c.domain c.parent) λ label.
            >>-KeepsSites (check_limits-KeepsSites limits u.id c.parent) (
              >>-KeepsSites (when-KeepsSites req.provision (provision_site-KeepsSites _ _ _))
                (return-KeepsSites _)))

  check_request-domain :
      (version : Text) (req : SiteAddRequest) (c : Checked)
      → check_request version req ≡ ok c
      → c.domain ≡ normalize_domain req.domain
  unfolding check_request
  check_request-domain version req c e = ground arith

  -- The row that `SiteAdd` writes is that of the domain of the request.
  pub prepare-domain :
      (req : SiteAddRequest)
      → Ensures (λ s. s.domain ≡ normalize_domain req.domain) (prepare host req)
  unfolding prepare site_row
  prepare-domain req =
      >>=-Ensures
        (lift-Ensures (λ c. c.domain ≡ normalize_domain req.domain) _
          (check_request-domain cfg.phpfpm.default_version req))
        λ c same. >>=-Ensures (any-Ensures _) λ u _. >>=-Ensures (any-Ensures _) λ limits _.
          >>-Ensures _ (
            >>=-Ensures (any-Ensures _)
              λ label _. >>-Ensures _ (>>-Ensures _ (return-Ensures _ same)))
