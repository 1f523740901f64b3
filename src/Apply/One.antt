-- ===== src/Apply/One.antt =====
-- `applyOne` of internal/app/apply.go. Each step hands its result on to a function by clauses, where
-- the source tests `err != nil`.
pub mod Frame
pub mod Live
use ngm.Base.{
  Bool, true, false, not, List, [], ◌∷◌, ◌++◌, Option, none, some, if◌then◌else◌, Error, Result, ok,
  err, wrap, return, try,
}
use ngm.Text.{Text, text}
use ngm.Nginx.{SiteTemplateData, publish}
use ngm.Nginx.Control.{test_config, reload_or_start}
use ngm.Nginx.Render.{render_site_to_staging}
use ngm.Store.{Site, SiteStore}
use ngm.Apply.{
  Host, App, ApplyDomainResult, on_world, change_world, update_result, rollback_from_backup,
  stage_delete_live_conf,
}

-- The three results of `applyOne`.
pub record Outcome : Type 0 where
  pub result : ApplyDomainResult
  pub changed : Bool
  pub error : Option Error

-- An `ApplyDomainResult` with no error, of a domain whose live file did not change.
abbrev pub plain : Text → Text → Text → Text → ApplyDomainResult
plain domain action status hash = record {
  domain = domain;
  action = action;
  changed = false;
  render_hash = hash;
  status = status;
  error = [];
}

abbrev pub failed : Text → Text → Text → Error → ApplyDomainResult
failed domain action hash e = record (plain domain action (text "fail") hash) { error = e.message }

-- The content that was rendered, hashed; no content has no hash.
abbrev pub hash_of : (Text → Text) → Result Text → Text
hash_of sha (ok content) = sha content
hash_of sha (err e) = []

module _ {S : SiteStore} (host : Host S) where
  open host use {env, manager}

  -- A step failed before anything was published.
  unfoldable pub refuse : Text → Text → Text → Text → Error → App S → Outcome × App S
  refuse domain action prefix hash e a = (
    record { result = failed domain action hash e; changed = false; error = some e },
    update_result domain (text "fail") (prefix ++ e.message) hash a,
  )

  -- What a call site of `ReloadOrStart` reports: of a deletion `Changed` is not set where it fails.
  unfoldable pub report_changed : Text → ApplyDomainResult → ApplyDomainResult
  report_changed action r = record r { changed = ngm.Text.text_eq action (text "apply") }

  -- The files are put back, nginx is reloaded, and the failure is recorded and returned.
  unfoldable pub roll_back : Text → Text → Text → Text → Error → App S → Outcome × App S
  roll_back domain action hash prefix e a =
      let a1 = change_world (rollback_from_backup env (domain ∷ [])) a in
      let a2 = (on_world (try (reload_or_start env manager)) a1).1 in
      (
        record {
          result = report_changed action (failed domain action hash e);
          changed = true;
          error = some (wrap prefix e);
        },
        update_result domain (text "fail") (prefix ++ e.message) hash a2,
      )

  unfoldable pub reloaded : Text → Text → Text → Result (Unit {0}) × App S → Outcome × App S
  reloaded domain action hash (err e, a) =
      roll_back domain action hash (text "nginx reload/start failed (rolled back): ") e a
  reloaded domain action hash (ok u, a) = (
    record {
      result = record (plain domain action (text "ok") hash) { changed = true };
      changed = true;
      error = none;
    },
    update_result domain (text "ok") [] hash a,
  )

  unfoldable pub tested : Text → Text → Text → Result (Unit {0}) × App S → Outcome × App S
  tested domain action hash (err e, a) =
      roll_back domain action hash (text "nginx -t failed (rolled back): ") e a
  tested domain action hash (ok u, a) =
      reloaded domain action hash (on_world (reload_or_start env manager) a)

  -- The live files changed: test, reload, and roll back if either fails.
  unfoldable pub activate : Text → Text → Text → App S → Outcome × App S
  activate domain action hash a =
      tested domain action hash
        (on_world (if host.test_before_reload then test_config env manager else return tt) a)

  unfoldable pub deleted : Text → Result Bool × App S → Outcome × App S
  deleted domain (err e, a) =
      refuse domain (text "delete") (text "delete live conf failed: ") [] e a
  deleted domain (ok false, a) = (
    record { result = plain domain (text "delete") (text "ok") []; changed = false; error = none },
    a,
  )
  deleted domain (ok true, a) = activate domain (text "delete") [] a

  unfoldable pub published : Text → Text → Result Bool × App S → Outcome × App S
  published domain hash (err e, a) = refuse domain (text "apply") [] hash e a
  published domain hash (ok false, a) = (
    record { result = plain domain (text "apply") (text "ok") hash; changed = false; error = none },
    update_result domain (text "ok") [] hash a,
  )
  published domain hash (ok true, a) = activate domain (text "apply") hash a

  unfoldable pub rendered : Text → Result Text × App S → Outcome × App S
  rendered domain (err e, a) = refuse domain (text "apply") [] (hash_of host.sha256_hex (err e)) e a
  rendered domain (ok content, a) =
      published domain (hash_of host.sha256_hex (ok content)) (on_world (publish env domain) a)

  unfoldable pub built : Text → Result SiteTemplateData × App S → Outcome × App S
  built domain (err e, a) = refuse domain (text "apply") [] [] e a
  built domain (ok td, a) =
      rendered domain (on_world (render_site_to_staging env host.template td) a)

  unfoldable pub apply_enabled : Site → Text → App S → Outcome × App S
  apply_enabled s domain a = built domain (on_world (host.build_template_data s domain a.db) a)

  unfoldable pub apply_disabled : Text → App S → Outcome × App S
  apply_disabled domain a = deleted domain (on_world (stage_delete_live_conf env domain) a)

  unfoldable pub dry_run : Site → Text → Outcome
  dry_run s domain = record {
    result = plain domain (if s.enabled then text "apply" else text "delete") (text "dry-run") [];
    changed = false;
    error = none;
  }

  unfoldable pub apply_found : Text → Bool → Result Site → App S → Outcome × App S
  apply_found domain dry (err e) a = (
    record {
      result = failed domain (text "apply") [] e;
      changed = false;
      error = some (wrap (text "get site: ") e);
    },
    a,
  )
  apply_found domain dry (ok s) a =
      if dry
      then (dry_run s domain, a)
      else if s.enabled
      then apply_enabled s domain a
      else apply_disabled domain a

  unfoldable pub apply_one : Text → Bool → App S → Outcome × App S
  apply_one domain dry a = apply_found domain dry (S.get_site_by_domain domain a.db) a
