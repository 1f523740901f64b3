-- ===== src/Apply.antt =====
-- internal/app/apply.go: the data of the apply pipeline, the removal of a live file, and the
-- rollback from the backups.
pub mod One
pub mod Batch
pub mod Needs
pub mod Rollback
pub mod Delete
use ngm.Base.{
  ℕ, ◌+◌, Bool, true, false, List, [], ◌∷◌, Option, none, some, if◌then◌else◌, Error, Result, ok,
  err, ◌>>◌, return,
}
use ngm.Text.{Text, text, to_lower, trim_space}
use ngm.Os.Paths.{live, backup}
use ngm.Os.{Env, Io, World, read_file, stat, remove, write_file_atomic}
use ngm.Nginx.{SiteTemplateData, Manager, remove_live_site}
use ngm.Nginx.Render.{Template}
use ngm.Store.{Site, SiteStore}

pub record ApplyRequest : Type 0 where
  pub domain : Text
  pub apply_all : Bool
  pub dry_run : Bool
  pub limit : ℕ

pub record ApplyDomainResult : Type 0 where
  pub domain : Text
  pub action : Text
  pub changed : Bool
  pub render_hash : Text
  pub status : Text
  pub error : Text

pub record ApplyResult : Type 0 where
  pub domains : List ApplyDomainResult
  pub changed : List Text
  pub reloaded : Bool

-- What `Apply` uses of the rest of the program: the manager and its template, whether to test before
-- a reload, the hash of a rendered file, and `buildTemplateData`.
pub record Host (S : SiteStore) : Type 0 where
  pub env : Env
  pub manager : Manager
  pub template : Template
  pub test_before_reload : Bool
  pub sha256_hex : Text → Text
  pub build_template_data : Site → Text → S.State → Io SiteTemplateData

pub record App (S : SiteStore) : Type 0 where
  pub world : World
  pub db : S.State

-- `strings.ToLower(strings.TrimSpace(value))`
unfoldable pub normalize_domain : Text → Text
unfolding to_lower trim_space
normalize_domain value = to_lower (trim_space value)

unfoldable pub rollback_step : Env → Text → Result Text → World → World
rollback_step env d (err e) w = (remove env (live d) w).1
rollback_step env d (ok []) w = (remove env (live d) w).1
rollback_step env d (ok (c ∷ cs)) w = (write_file_atomic env (live d) (c ∷ cs) w).1

unfoldable pub rollback_from_backup : Env → List Text → World → World
rollback_from_backup env [] w = w
rollback_from_backup env (d ∷ ds) w =
    let (bak, w') = read_file env (backup d) w in
    rollback_from_backup env ds (rollback_step env d bak w')

unfoldable pub stage_delete_found : Env → Text → Result (Unit {0}) → Io Bool
stage_delete_found env domain (err e) w = if e.not_exist then (ok false, w) else (err e, w)
stage_delete_found env domain (ok u) w = (remove_live_site env domain >> return true) w

unfoldable pub stage_delete_live_conf : Env → Text → Io Bool
stage_delete_live_conf env domain w =
    let (r, w') = stat env (live domain) w in stage_delete_found env domain r w'

module _ {S : SiteStore} where
  unfoldable pub on_world : {A : Type 0} → Io A → App S → Result A × App S
  on_world m a = let (r, w) = m a.world in (r, record a { world = w })

  unfoldable pub change_world : (World → World) → App S → App S
  change_world f a = record a { world = f a.world }

  -- `if updater != nil { _ = updater.UpdateApplyResult(…) }`
  unfoldable pub update_result : Text → Text → Text → Text → App S → App S
  update_result domain status message hash a = elim S.update_apply_result [
    | none ↦ a
    | some update ↦ record a { db = update domain status message hash a.db }
  ]
