-- ===== src/Sites/Add.antt =====
-- `SiteAdd` of internal/app/site.go.
pub mod Prepare
pub mod Finish
pub mod Laws
use ngm.Base.{
  ℕ, zero, suc, ◌+◌, ◌*◌, Bool, true, false, not, ◌&&◌, ◌||◌, List, [], ◌∷◌, ◌++◌, Option, none,
  some, Error, Result, ok, err, errorf, wrap, wrapping, if◌then◌else◌, is_ok, ltb, leb, return,
  fail, try, ◌>>=◌, ◌>>◌, ◌==◌, ◌-◌,
}
use ngm.Text.{Text, text, text_eq, is_empty, trim_space, fields}
use ngm.Text.Decimal.{atoi}
use ngm.Text.Place.{join}
use ngm.Dns.{SiteDnsInput, Provider, kind_root, kind_subdomain}
use ngm.Store.{User, Site, UserLimits, PanelUser}
use ngm.Store.PanelUsers.{get_panel_user_by_username}
use ngm.Store.Db.{Db, Lookup, found, no_rows, failed, to_result, query, query_row}
use ngm.Store.Db.Users.{ensure_user}
use ngm.Store.Db.Sites.{
  site_of_domain, get_site_by_domain, upsert_site, delete_site_by_domain,
  count_root_domains_by_user_id, count_subdomains_by_user_id,
}
use ngm.Store.Db.Targets.{upsert_proxy_target, list_proxy_targets_by_site_id}
use ngm.Store.Db.Packages.{get_effective_limits, LimitsError, no_package_assigned, other_error}
use ngm.Apply.{normalize_domain}
use ngm.Sites.{
  is_likely_fqdn, ParentCheck, no_parent, under, refused, validate_parent_domain, within_limit,
  php_version_allowed, derive_default_webroot, normalize_parent,
}
use ngm.Sites.Panel.{
  Panel, Act, SiteHost, CertEnd, issued, not_ready, not_issued, on_db, on_row, on_files, lift, when,
}
use ngm.Sites.Overrides.{write_php_overrides_file}
use ngm.Sites.Checks.{
  is_mode, text_or, check_request, label_of, found_site, site_dns_input_from_parts, web_group,
  limits_result, panel_user_result, resolve_user_limits_by_username, parent_label,
  enforce_max_limit, check_limits, provision_site, is_new, site_row, prepare, SiteAddRequest,
  Checked,
}

pub record SiteAddResult : Type 0 where
  pub site : Site
  pub warnings : List Text

module _ (host : SiteHost) where
  open host use {fault}

  unfoldable pub ensure_dns : Provider → SiteDnsInput → Text → Act (Unit {0})
  ensure_dns dns in' [] = on_files (dns.ensure_root_site in')
  ensure_dns dns in' (c ∷ parent) = on_files (dns.ensure_subdomain_site in')

  -- A new row is deleted again if the records cannot be made.
  unfoldable pub compensate : Text → Bool → Result (Unit {0}) → Act (Unit {0})
  compensate domain created (ok u) = return tt
  compensate domain false (err e) = fail (wrap (text "dns ensure site: ") e)
  compensate domain true (err e) = do
    deleted ← try (on_db (delete_site_by_domain fault domain))
    (if is_ok deleted
        then fail (wrap (text "dns ensure site: ") e)
        else fail (errorf (text "dns ensure site: compensation delete failed")))

  unfoldable pub with_dns : Option Provider → Text → Text → Bool → Act (Unit {0})
  with_dns none domain parent created = return tt
  with_dns (some dns) domain parent created = do
    made ← try (ensure_dns dns (site_dns_input_from_parts host domain parent) parent)
    compensate domain created made

  -- The row, and the records of its name.
  unfoldable pub add_row : Text → Site → Act Site
  add_row parent s = do
    before ← on_row (get_site_by_domain fault s.domain)
    created ← lift (is_new host before)
    stored ← on_db (upsert_site fault s)
    with_dns host.dns s.domain parent created
    return stored

  -- A target and its weight: "addr" or "addr weight".
  unfoldable pub weight_of : Option ℕ → ℕ
  weight_of none = 100
  weight_of (some w) = if ltb 0 w then w else 100

  unfoldable pub parse_target : Text → List Text → Text × ℕ
  parse_target line [] = (line, 100)
  parse_target line (addr ∷ []) = (addr, 100)
  parse_target line (addr ∷ (weight ∷ rest)) = (addr, weight_of (atoi weight))

  unfoldable pub target_warning : Result (Unit {0}) → List Text
  target_warning (ok u) = []
  target_warning (err e) = (text "proxy target add failed: " ++ e.message) ∷ []

  -- The targets that are not blank; what fails is a warning.
  unfoldable pub add_targets : ℕ → List Text → Act (List Text)
  add_targets id [] = return []
  add_targets id (line ∷ lines) =
      let rest = add_targets id lines in
      if is_empty (trim_space line) then rest else do
        (let (addr, weight) = parse_target (trim_space line) (fields (trim_space line)) in
            do
              added ← try (on_db (upsert_proxy_target fault id addr weight false true))
              more ← rest
              return (target_warning added ++ more))

  unfoldable pub has_none : {A : Type 0} → Result (List A) → Bool
  has_none (ok []) = true
  has_none (ok (x ∷ xs)) = false
  has_none (err e) = true

  -- A proxy without targets is not applied: the answer says whether to apply.
  unfoldable pub check_targets : Bool → ℕ → Act (List Text × Bool)
  check_targets false id = return ([], false)
  check_targets true id = do
    targets ← try (on_db (list_proxy_targets_by_site_id fault id))
    return (
        if has_none targets
        then (text "proxy site created: add at least 1 proxy target, then click Apply" ∷ [], false)
        else ([], true))

  unfoldable pub apply_warning : Result (Unit {0}) → List Text
  apply_warning (ok u) = []
  apply_warning (err e) = (text "apply-now failed: " ++ e.message) ∷ []

  unfoldable pub cert_warning : CertEnd → List Text
  cert_warning issued = []
  cert_warning not_ready = text "certificate issuance blocked: provision init not completed" ∷ []
  cert_warning (not_issued e) = (text "certificate issuance failed: " ++ e.message) ∷ []

  unfoldable pub issued_cert : Text → Act (List Text)
  issued_cert domain p = let (end, p') = host.cert_issue domain p in (ok (cert_warning end), p')

  unfoldable pub issue_cert : Bool → Bool → Bool → Text → Act (List Text)
  issue_cert true apply_now applied domain = return []
  issue_cert false false applied domain = return (
      text
        "certificate issuance skipped: apply-now is disabled; apply the site first, then issue cert"
      ∷ [])
  issue_cert false true false domain = return (
      text "certificate issuance skipped: apply-now failed; fix apply errors before issuing cert"
      ∷ [])
  issue_cert false true true domain = issued_cert domain

  unfoldable pub apply_site : Bool → Text → Act (List Text × Bool)
  apply_site false domain = return ([], true)
  apply_site true domain = do
    applied ← try (host.apply domain)
    return (apply_warning applied, is_ok applied)

  -- What follows the row: none of it is an error.
  unfoldable pub finish : SiteAddRequest → Site → Site → Act SiteAddResult
  finish req s stored = do
    try (
        on_files (
          if text_eq s.mode (text "php")
          then write_php_overrides_file host s.webroot (trim_space req.user) (web_group host)
              req.php_ini_overrides
          else return tt))
    added ←
        (if text_eq s.mode (text "proxy")
          then add_targets stored.id req.proxy_targets
          else return [])
    (blocked, apply_now) ←
        (if text_eq s.mode (text "proxy") && req.apply_now
          then check_targets true stored.id
          else return ([], req.apply_now))
    (failed_apply, applied) ← apply_site apply_now s.domain
    certs ← issue_cert req.skip_cert apply_now applied s.domain
    return (record { site = stored; warnings = added ++ (blocked ++ (failed_apply ++ certs)) })

  unfoldable pub site_add : SiteAddRequest → Act SiteAddResult
  site_add req = do
    s ← prepare host req
    stored ← add_row (normalize_domain req.parent_domain) s
    finish req s stored
