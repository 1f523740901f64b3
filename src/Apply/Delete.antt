-- ===== src/Apply/Delete.antt =====
-- What `stageDeleteLiveConf` does to the files.
use ngm.Base.{◌≡◌, true, none, if◌then◌else◌, ok, arith, return, ◌>>◌, inl, inr, is_ok}
use ngm.Text.{Text}
use ngm.Os.Paths.{live, backup}
use ngm.Os.{Env, World, tick}
use ngm.Os.Atomic.{Reliable}
use ngm.Os.Frame.{stat-cases}
use ngm.Nginx.Publish.{remove_live_site-live}
use ngm.Nginx.Backup.{saved, remove_live_site-backup}
use ngm.Apply.{stage_delete_live_conf, stage_delete_found}

module _ (env : Env) (d : Text) (w : World) where
  pub stage_delete-live :
      (stage_delete_live_conf env d w).1.files (live d)
      ≡ (if is_ok (stage_delete_live_conf env d w).0 then none else w.files (live d))
  unfolding stage_delete_live_conf stage_delete_found ◌>>◌ return
  stage_delete-live = elim (stat-cases env (live d) w) [
    | inr (e, r, gone) ↦ ground arith
    | inl (c, r, has) ↦ ground (arith, remove_live_site-live env d (tick w))
  ]

  pub stage_delete-backup :
      Reliable env
      → (stage_delete_live_conf env d w).0 ≡ ok true
      → (stage_delete_live_conf env d w).1.files (backup d) ≡ saved w d
  unfolding stage_delete_live_conf stage_delete_found ◌>>◌ return
  stage_delete-backup reliable h = elim (stat-cases env (live d) w) [
    | inr (e, r, gone) ↦ ground arith
    | inl (c, r, has) ↦ ground (arith, remove_live_site-backup env reliable d (tick w))
  ]
