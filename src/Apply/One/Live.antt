-- ===== src/Apply/One/Live.antt =====
-- What `applyOne` leaves in the live file of its domain where no file operation fails. Commands
-- answer as they like: tests and reloads may fail at any point.
use ngm.Base.{
  ◌≡◌, refl, sym, ap, subst, ◌∙◌, Bool, true, false, [], ◌∷◌, Option, none, some, if◌then◌else◌,
  Error, Result, ok, err, arith, return, is_ok,
}
use ngm.Text.{Text}
use ngm.Text.Laws.{text_eq_refl}
use ngm.Os.Paths.{FilePath, live, staged, backup}
use ngm.Os.{Io, World}
use ngm.Os.Atomic.{Reliable}
use ngm.Os.Frame.{Keeps, return-Keeps, if-Keeps, try-Keeps}
use ngm.Nginx.{SiteTemplateData, publish}
use ngm.Nginx.Publish.{publish-live}
use ngm.Nginx.Backup.{saved, publish-backup}
use ngm.Nginx.Control.{test_config, reload_or_start}
use ngm.Nginx.Control.Frame.{test_config-Keeps, reload_or_start-Keeps}
use ngm.Nginx.Render.{render_site_to_staging, execute, completed}
use ngm.Nginx.Render.Staged.{render-Keeps, render-staged}
use ngm.Store.{Site, SiteStore}
use ngm.Apply.{Host, App, on_world, change_world, rollback_from_backup, stage_delete_live_conf}
use ngm.Apply.Delete.{stage_delete-live, stage_delete-backup}
use ngm.Apply.Rollback.{rollback_from_backup-live, non_empty}
use ngm.Apply.One.{
  Outcome, refuse, roll_back, reloaded, tested, activate, deleted, published, rendered, built,
  apply_enabled, apply_disabled, apply_found, apply_one,
}
use ngm.Apply.One.Frame.{BuildsFor, Same, on_world-Same, update_result-world}

-- What the live file holds in the end, by the error that is returned: on success `new`, and after an
-- error `old`, which is what the rollback makes of it.
abbrev pub Ends : Option Error → Option Text → Option Text → Option Text → Type 0
Ends none now new old = now ≡ new
Ends (some e) now new old = now ≡ old

module _ {S : SiteStore} (host : Host S) (reliable : Reliable host.env) (d : Text) where
  open host use {env, manager}

  abbrev pub live_of : App S → Option Text
  live_of a = a.world.files (live d)

  -- Test, reload, and a rollback where one of them fails: the outcome says that the file changed.
  abbrev pub Activates : App S → Outcome × App S → Type 0
  Activates a x =
      (x.0.changed ≡ true)
      × Ends x.0.error (live_of x.1) (live_of a) (non_empty (a.world.files (backup d)))

  roll_back-Activates :
      (action hash prefix : Text) (e : Error) (a : App S)
      → Activates a (roll_back host d action hash prefix e a)
  unfolding roll_back change_world on_world
  roll_back-Activates action hash prefix e a = (
    refl,
    rw update_result-world (
        (try-Keeps (reload_or_start-Keeps env manager)).kept
          (rollback_from_backup env (d ∷ []) a.world)
        ∙ rollback_from_backup-live env reliable (d ∷ []) a.world d
        ∙ rw (text_eq_refl d) refl),
  )

  reloaded-Activates :
      (action hash : Text) (x : Result (Unit {0}) × App S)
      → Activates x.1 (reloaded host d action hash x)
  unfolding reloaded
  reloaded-Activates action hash (err e, a) = roll_back-Activates action hash _ e a
  reloaded-Activates action hash (ok u, a) = (refl, rw update_result-world refl)

  -- What holds from a later state holds from an earlier one with the same files.
  Activates-from :
      (a b : App S) (x : Outcome × App S)
      → Same (live d) a b
      → Same (backup d) a b
      → Activates b x
      → Activates a x
  Activates-from a b x h k v = rw (h, k) at v

  tested-Activates :
      (action hash : Text) (x : Result (Unit {0}) × App S)
      → Activates x.1 (tested host d action hash x)
  unfolding tested
  tested-Activates action hash (err e, a) = roll_back-Activates action hash _ e a
  tested-Activates action hash (ok u, a) =
      Activates-from a (on_world (reload_or_start env manager) a).1
        (reloaded host d action hash (on_world (reload_or_start env manager) a))
        (on_world-Same (reload_or_start env manager) a (reload_or_start-Keeps env manager))
        (on_world-Same (reload_or_start env manager) a (reload_or_start-Keeps env manager))
        (reloaded-Activates action hash (on_world (reload_or_start env manager) a))

  activate-Activates :
      (action hash : Text) (a : App S) → Activates a (activate host d action hash a)
  unfolding activate
  activate-Activates action hash a =
      Activates-from a (on_world check a).1 (tested host d action hash (on_world check a))
        (on_world-Same check a test-Keeps) (on_world-Same check a test-Keeps)
        (tested-Activates action hash (on_world check a))
    where
      check : Io (Unit {0})
      check = if host.test_before_reload then test_config env manager else return tt

      test-Keeps : {q : FilePath} → Keeps q check
      test-Keeps =
          if-Keeps host.test_before_reload (test_config-Keeps env manager) (return-Keeps tt)

  -- How `applyOne` ends, from what the files were: without an error the live file is as `P` says.
  -- After an error it is as it was, or, if the outcome says that it was changed, the backup that
  -- `saved` describes, unless that is empty.
  abbrev pub Settles : App S → (Option Text → Type 0) → Option Error → Bool → Option Text → Type 0
  Settles a P none changed now = P now
  Settles a P (some e) true now = now ≡ non_empty (saved a.world d)
  Settles a P (some e) false now = now ≡ live_of a

  abbrev pub SettlesBy : App S → (Option Text → Type 0) → Outcome × App S → Type 0
  SettlesBy a P x = Settles a P x.0.error x.0.changed (live_of x.1)

  activated :
      (a : App S) (new : Option Text) (e : Option Error) (changed : Bool) (now old : Option Text)
      → changed ≡ true
      → Ends e now new old
      → old ≡ non_empty (saved a.world d)
      → Settles a (λ now. now ≡ new) e changed now
  activated a new none changed now old h ends o = ends
  activated a new (some e) true now old h ends o = ends ∙ o
  activated a new (some e) false now old h ends o = cc

  activate-Settles :
      (action hash : Text) (a b : App S) (new : Option Text)
      → live_of b ≡ new
      → b.world.files (backup d) ≡ saved a.world d
      → SettlesBy a (λ now. now ≡ new) (activate host d action hash b)
  activate-Settles action hash a b new is_new kept =
      let x : Outcome × App S = activate host d action hash b in
      let v : Activates b x = activate-Activates action hash b in
      activated a new x.0.error x.0.changed (live_of x.1) (non_empty (b.world.files (backup d))) v.0
        (rw is_new at v.1) (ap non_empty kept)

  deleted-Settles :
      (a : App S) (r : Result Bool) (b : App S)
      → (is_ok r ≡ false → live_of b ≡ live_of a)
      → (is_ok r ≡ true → live_of b ≡ none)
      → (r ≡ ok true → b.world.files (backup d) ≡ saved a.world d)
      → SettlesBy a (λ now. now ≡ none) (deleted host d (r, b))
  unfolding deleted refuse
  deleted-Settles a (err e) b same gone kept = rw update_result-world (same refl)
  deleted-Settles a (ok false) b same gone kept = gone refl
  deleted-Settles a (ok true) b same gone kept =
      activate-Settles _ _ a b none (gone refl) (kept refl)

  published-Settles :
      (hash : Text) (new : Option Text) (a : App S) (r : Result Bool) (b : App S)
      → (is_ok r ≡ false → live_of b ≡ live_of a)
      → (is_ok r ≡ true → live_of b ≡ new)
      → (r ≡ ok true → b.world.files (backup d) ≡ saved a.world d)
      → SettlesBy a (λ now. now ≡ new) (published host d hash (r, b))
  unfolding published refuse
  published-Settles hash new a (err e) b same now kept = rw update_result-world (same refl)
  published-Settles hash new a (ok false) b same now kept = rw update_result-world (now refl)
  published-Settles hash new a (ok true) b same now kept =
      activate-Settles _ _ a b new (now refl) (kept refl)

  apply_disabled-Settles : (a : App S) → SettlesBy a (λ now. now ≡ none) (apply_disabled host d a)
  unfolding apply_disabled on_world
  apply_disabled-Settles a =
      deleted-Settles a (stage_delete_live_conf env d a.world).0
        (on_world (stage_delete_live_conf env d) a).1
        (λ h. stage_delete-live env d a.world ∙ rw h refl)
        (λ h. stage_delete-live env d a.world ∙ rw h refl)
        (stage_delete-backup env d a.world reliable)

  published_from :
      (hash : Text) (new : Option Text) (a : App S)
      → a.world.files (staged d) ≡ new
      → SettlesBy a (λ now. now ≡ new) (published host d hash (on_world (publish env d) a))
  unfolding on_world
  published_from hash new a is_new =
      published-Settles hash new a (publish env d a.world).0 (on_world (publish env d) a).1
        (λ h. publish-live env d a.world ∙ rw h refl)
        (λ h. publish-live env d a.world ∙ rw (h, is_new) refl)
        (publish-backup env reliable d a.world)

  Settles-map :
      (a : App S) (P Q : Option Text → Type 0) (e : Option Error) (changed : Bool)
      (now : Option Text)
      → ((o : Option Text) → P o → Q o)
      → Settles a P e changed now
      → Settles a Q e changed now
  Settles-map a P Q none changed now f v = f now v
  Settles-map a P Q (some e) true now f v = v
  Settles-map a P Q (some e) false now f v = v

  saved_eq :
      (a b : App S) → Same (live d) a b → Same (backup d) a b → saved b.world d ≡ saved a.world d
  saved_eq a b h k = ground arith

  Settles-eq :
      (a b : App S) (P : Option Text → Type 0) (e : Option Error) (changed : Bool)
      (now : Option Text)
      → Same (live d) a b
      → saved b.world d ≡ saved a.world d
      → Settles b P e changed now
      → Settles a P e changed now
  Settles-eq a b P none changed now h k v = v
  Settles-eq a b P (some e) true now h k v = v ∙ ap non_empty k
  Settles-eq a b P (some e) false now h k v = v ∙ h

  SettlesBy-from :
      (a b : App S) (P : Option Text → Type 0) (x : Outcome × App S)
      → Same (live d) a b
      → Same (backup d) a b
      → SettlesBy b P x
      → SettlesBy a P x
  SettlesBy-from a b P x h k v =
      Settles-eq a b P x.0.error x.0.changed (live_of x.1) h (saved_eq a b h k) v

  refuse-Settles :
      (a : App S) (P : Option Text → Type 0) (action prefix hash : Text) (e : Error)
      → SettlesBy a P (refuse host d action prefix hash e a)
  unfolding refuse
  refuse-Settles a P action prefix hash e = rw update_result-world refl

  settles_if :
      (a : App S) (b : Bool) (x y : Outcome × App S) (P Q : Option Text → Type 0)
      → SettlesBy a P x
      → SettlesBy a Q y
      → SettlesBy a (λ now. if b then P now else Q now) (if b then x else y)
  settles_if a true x y P Q h k = h
  settles_if a false x y P Q h k = k

  -- The template, given the data, yields the content.
  abbrev pub Renders : SiteTemplateData → Text → Type 0
  Renders td c = execute host.template (completed td) ≡ ok c

  abbrev pub Shows : SiteTemplateData → Option Text → Type 0
  Shows td now = (c : Text) × Renders td c × (now ≡ some c)

  rendered-Settles :
      (td : SiteTemplateData) (r : Result Text) (b : App S)
      → ((c : Text) → r ≡ ok c → Renders td c × (b.world.files (staged d) ≡ some c))
      → SettlesBy b (Shows td) (rendered host d (r, b))
  unfolding rendered
  rendered-Settles td (err e) b staged_is = refuse-Settles b (Shows td) _ _ _ e
  rendered-Settles td (ok c) b staged_is =
      Settles-map b (λ now. now ≡ some c) (Shows td) _ _ _
        (λ o is_c. (c, (staged_is c refl).0, is_c))
        (published_from _ (some c) b (staged_is c refl).1)

  module _ (builds : BuildsFor host) where
    -- The data that `buildTemplateData` makes of the site, and the content rendered from it.
    abbrev pub Published : Site → App S → Option Text → Type 0
    Published s a now =
        (td : SiteTemplateData) × ((host.build_template_data s d a.db a.world).0 ≡ ok td)
        × Shows td now

    built-Settles :
        (td : SiteTemplateData) (a : App S)
        → td.domain ≡ d
        → SettlesBy a (Shows td) (built host d (ok td, a))
    unfolding built on_world
    built-Settles td a same_domain =
        SettlesBy-from a b (Shows td) (rendered host d (render.0, b)) (live_kept.kept a.world)
          (backup_kept.kept a.world)
          (rendered-Settles td render.0 b λ c r. (
            (render-staged env host.template td a.world c r).0,
            subst (λ x. b.world.files (staged x) ≡ some c) same_domain
                (render-staged env host.template td a.world c r).1,
          ))
      where
        render : Result Text × World
        render = render_site_to_staging env host.template td a.world

        b : App S
        b = record a { world = render.1 }

        live_kept : Keeps (live d) (render_site_to_staging env host.template td)
        live_kept = render-Keeps env host.template td refl refl

        backup_kept : Keeps (backup d) (render_site_to_staging env host.template td)
        backup_kept = render-Keeps env host.template td refl refl

    after_build :
        (s : Site) (a b : App S) (r : Result SiteTemplateData)
        → (host.build_template_data s d a.db a.world).0 ≡ r
        → SettlesBy b (Published s a) (built host d (r, b))
    unfolding built
    after_build s a b (err e) is_r = refuse-Settles b (Published s a) _ _ _ e
    after_build s a b (ok td) is_r =
        let x : Outcome × App S = built host d (ok td, b) in
        Settles-map b (Shows td) (Published s a) x.0.error x.0.changed (live_of x.1)
          (λ o shows. (td, is_r, shows))
          (built-Settles td b (builds.of_domain s d a.db a.world td is_r))

    apply_enabled-Settles :
        (s : Site) (a : App S) → SettlesBy a (Published s a) (apply_enabled host s d a)
    unfolding apply_enabled on_world
    apply_enabled-Settles s a =
        SettlesBy-from a b (Published s a) (built host d (build.0, b))
          ((builds.keeps_live s d a.db d).kept a.world)
          ((builds.keeps_backup s d a.db d).kept a.world) (after_build s a b build.0 refl)
      where
        build : Result SiteTemplateData × World
        build = host.build_template_data s d a.db a.world

        b : App S
        b = record a { world = build.1 }

    -- What `applyOne` of a site that the store knows leaves: the content rendered for it if it is
    -- enabled, no file if it is not, and what the rollback makes after an error.
    abbrev pub Wanted : Site → App S → Option Text → Type 0
    Wanted s a now = if s.enabled then Published s a now else (now ≡ none)

    -- Where no file operation fails, `applyOne` of a known site, not as a dry run, whatever tests and
    -- reloads answer: without an error the live file holds the rendered content, or is gone if the
    -- site is disabled. After an error it is as it was if the outcome says that nothing changed;
    -- otherwise it holds what the backup was given, the live file as it was before or else the older
    -- backup, and is gone if that is missing or empty.
    pub apply_one_settles :
        (a : App S) (s : Site)
        → S.get_site_by_domain d a.db ≡ ok s
        → SettlesBy a (Wanted s a) (apply_one host d false a)
    unfolding apply_one apply_found
    apply_one_settles a s found =
        subst (λ r. SettlesBy a (Wanted s a) (apply_found host d false r a)) (sym found)
          (settles_if a s.enabled (apply_enabled host s d a) (apply_disabled host d a)
            (Published s a) (λ now. now ≡ none) (apply_enabled-Settles s a)
            (apply_disabled-Settles a))
