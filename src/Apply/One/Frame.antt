-- ===== src/Apply/One/Frame.antt =====
-- Which files `applyOne` can write, whatever fails.
use ngm.Base.{
  ◌≡◌, refl, ◌∙◌, Bool, true, false, [], ◌∷◌, Error, Result, ok, err, arith, Bool-cases, inl, inr,
  if_intro,
}
use ngm.Text.{Text, text_eq}
use ngm.Os.Paths.{FilePath, live, backup, is_temp, path_eq}
use ngm.Os.{Env, Io, World, stat}
use ngm.Os.Frame.{Keeps, stat-Keeps, return-Keeps, if-Keeps, >>-Keeps, try-Keeps}
use ngm.Nginx.{SiteTemplateData, publish}
use ngm.Nginx.Publish.{publish-Keeps, remove_live_site-Keeps}
use ngm.Nginx.Control.{reload_or_start}
use ngm.Nginx.Control.Frame.{test_config-Keeps, reload_or_start-Keeps}
use ngm.Nginx.Render.{render_site_to_staging}
use ngm.Nginx.Render.Staged.{render-Keeps}
use ngm.Store.{Site, SiteStore}
use ngm.Apply.{
  Host, App, on_world, change_world, update_result, rollback_from_backup, stage_delete_live_conf,
  stage_delete_found,
}
use ngm.Apply.Rollback.{rollback_from_backup-Keeps}
use ngm.Apply.One.{
  Outcome, refuse, roll_back, reloaded, tested, activate, deleted, published, rendered, built,
  apply_enabled, apply_disabled, apply_found, apply_one,
}

-- What the pipeline relies on of `buildTemplateData`: the data is of the domain asked for, and no
-- live file, staged file or backup is written.
pub record BuildsFor {S : SiteStore} (host : Host S) : Type 0 where
  pub of_domain :
      (s : Site) (d : Text) (db : S.State) (w : World) (td : SiteTemplateData)
      → (host.build_template_data s d db w).0 ≡ ok td
      → td.domain ≡ d
  pub keeps_live :
      (s : Site) (d : Text) (db : S.State) (e : Text)
      → Keeps (live e) (host.build_template_data s d db)
  pub keeps_backup :
      (s : Site) (d : Text) (db : S.State) (e : Text)
      → Keeps (backup e) (host.build_template_data s d db)

module _ {S : SiteStore} where
  pub update_result-world :
      (d status message hash : Text) (a : App S)
      → (update_result d status message hash a).world ≡ a.world
  unfolding update_result
  update_result-world d status message hash a = ground arith

  -- A computation on the application leaves the file alone.
  abbrev pub Same : FilePath → App S → App S → Type 0
  Same q a a' = a'.world.files q ≡ a.world.files q

  pub on_world-Same :
      {A : Type 0} {q : FilePath} (m : Io A) (a : App S) → Keeps q m → Same q a (on_world m a).1
  unfolding on_world
  on_world-Same m a h = h.kept a.world

module _ (env : Env) (d : Text) (q : FilePath) (h : is_temp q ≡ false) where
  module _ (k : path_eq (backup d) q ≡ false) (l : path_eq (live d) q ≡ false) where
    stage_delete_found-Keeps : (r : Result (Unit {0})) → Keeps q (stage_delete_found env d r)
    unfolding stage_delete_found
    stage_delete_found-Keeps (err e) = record {
      kept = λ w. elim (Bool-cases e.not_exist) [ inl b ↦ rw b refl | inr b ↦ rw b refl ];
    }
    stage_delete_found-Keeps (ok u) = record {
      kept = (>>-Keeps (remove_live_site-Keeps env d q h k l) (return-Keeps true)).kept;
    }

    pub stage_delete-Keeps : Keeps q (stage_delete_live_conf env d)
    unfolding stage_delete_live_conf
    stage_delete-Keeps = record {
      kept = λ w.
          (stage_delete_found-Keeps (stat env (live d) w).0).kept (stat env (live d) w).1
          ∙ (stat-Keeps env (live d)).kept w;
    }

module _ {S : SiteStore} (host : Host S) (d : Text) (q : FilePath) where
  open host use {env, manager}

  refuse-Same :
      (action prefix hash : Text) (e : Error) (a : App S)
      → Same q a (refuse host d action prefix hash e a).1
  unfolding refuse
  refuse-Same action prefix hash e a = rw update_result-world refl

  module _ (h : is_temp q ≡ false) (l : path_eq (live d) q ≡ false) where
    roll_back-Same :
        (action hash prefix : Text) (e : Error) (a : App S)
        → Same q a (roll_back host d action hash prefix e a).1
    unfolding roll_back change_world on_world
    roll_back-Same action hash prefix e a = rw update_result-world (
        (try-Keeps (reload_or_start-Keeps env manager)).kept
          (rollback_from_backup env (d ∷ []) a.world)
        ∙ rollback_from_backup-Keeps env (d ∷ []) a.world q h (rw l refl))

    reloaded-Same :
        (action hash : Text) (x : Result (Unit {0}) × App S)
        → Same q x.1 (reloaded host d action hash x).1
    unfolding reloaded
    reloaded-Same action hash (err e, a) = roll_back-Same action hash _ e a
    reloaded-Same action hash (ok u, a) = rw update_result-world refl

    tested-Same :
        (action hash : Text) (x : Result (Unit {0}) × App S)
        → Same q x.1 (tested host d action hash x).1
    unfolding tested
    tested-Same action hash (err e, a) = roll_back-Same action hash _ e a
    tested-Same action hash (ok u, a) =
        reloaded-Same action hash (on_world (reload_or_start env manager) a)
        ∙ on_world-Same (reload_or_start env manager) a (reload_or_start-Keeps env manager)

    activate-Same : (action hash : Text) (a : App S) → Same q a (activate host d action hash a).1
    unfolding activate
    activate-Same action hash a =
        tested-Same action hash _
        ∙ on_world-Same _ a
            (if-Keeps host.test_before_reload (test_config-Keeps env manager) (return-Keeps tt))

    deleted-Same : (x : Result Bool × App S) → Same q x.1 (deleted host d x).1
    unfolding deleted
    deleted-Same (err e, a) = refuse-Same _ _ _ e a
    deleted-Same (ok false, a) = refl
    deleted-Same (ok true, a) = activate-Same _ _ a

    published-Same :
        (hash : Text) (x : Result Bool × App S) → Same q x.1 (published host d hash x).1
    unfolding published
    published-Same hash (err e, a) = refuse-Same _ _ _ e a
    published-Same hash (ok false, a) = rw update_result-world refl
    published-Same hash (ok true, a) = activate-Same _ _ a

    module _ (k : path_eq (backup d) q ≡ false) where
      rendered-Same : (x : Result Text × App S) → Same q x.1 (rendered host d x).1
      unfolding rendered
      rendered-Same (err e, a) = refuse-Same _ _ _ e a
      rendered-Same (ok c, a) =
          published-Same _ (on_world (publish env d) a)
          ∙ on_world-Same (publish env d) a (publish-Keeps env d q h k l)

      pub apply_disabled-Same : (a : App S) → Same q a (apply_disabled host d a).1
      unfolding apply_disabled
      apply_disabled-Same a =
          deleted-Same (on_world (stage_delete_live_conf env d) a)
          ∙ on_world-Same (stage_delete_live_conf env d) a (stage_delete-Keeps env d q h k l)

module _ {S : SiteStore} (host : Host S) (builds : BuildsFor host) (d e : Text) where
  built-Same :
      (x : Result SiteTemplateData × App S)
      → text_eq d e ≡ false
      → Same (live e) x.1 (built host d x).1
  unfolding built
  built-Same (err er, a) differ = refuse-Same host d (live e) _ _ _ er a
  built-Same (ok td, a) differ =
      rendered-Same host d (live e) refl differ refl
        (on_world (render_site_to_staging host.env host.template td) a)
      ∙ on_world-Same _ a (render-Keeps host.env host.template td refl refl)

  apply_enabled-Same :
      (s : Site) (a : App S) → text_eq d e ≡ false → Same (live e) a (apply_enabled host s d a).1
  unfolding apply_enabled
  apply_enabled-Same s a differ =
      built-Same _ differ ∙ on_world-Same _ a (builds.keeps_live s d a.db e)

  apply_found-Same :
      (dry : Bool) (r : Result Site) (a : App S)
      → text_eq d e ≡ false
      → Same (live e) a (apply_found host d dry r a).1
  unfolding apply_found
  apply_found-Same dry (err er) a differ = refl
  apply_found-Same true (ok s) a differ = refl
  apply_found-Same false (ok s) a differ =
      if_intro (λ (x : Outcome × App S). Same (live e) a x.1) s.enabled _ _
        (λ _. apply_enabled-Same s a differ)
        (λ _. apply_disabled-Same host d (live e) refl differ refl a)

  -- Applying a domain changes no other domain's live file, whatever fails.
  pub apply_one_other_live :
      (dry : Bool) (a : App S)
      → text_eq d e ≡ false
      → (apply_one host d dry a).1.world.files (live e) ≡ a.world.files (live e)
  unfolding apply_one
  apply_one_other_live dry a differ = apply_found-Same dry _ a differ
