-- ===== src/Apply/Rollback.antt =====
-- What the rollback of a list of domains does to the files.
use ngm.Base.{
  ◌≡◌, refl, ◌∙◌, Bool, false, ◌||◌, List, [], ◌∷◌, Option, none, some, arith, if◌then◌else◌,
  Result, ok, err, ◌>>◌, Bool-cases, inl, inr,
}
use ngm.Text.{Text, text_eq}
use ngm.Text.Laws.{text_eq_iff, text_eq_refl}
use ngm.Os.Paths.{FilePath, live, backup, is_temp, path_eq}
use ngm.Os.{Env, World, read_file, remove, found, tick}
use ngm.Os.Atomic.{
  Reliable, files-write_file_atomic, write_file_atomic_succeeds, read_file_reliable,
}
use ngm.Os.Frame.{read_file-Keeps, remove-Keeps, write-Keeps}
use ngm.Apply.{rollback_step, rollback_from_backup}

abbrev pub elem : Text → List Text → Bool
elem d [] = false
elem d (x ∷ xs) = text_eq x d || elem d xs

-- What the rollback makes of a live file: the backup's content, unless that is missing or empty.
abbrev pub non_empty : Option Text → Option Text
non_empty none = none
non_empty (some []) = none
non_empty (some (c ∷ cs)) = some (c ∷ cs)

abbrev pub restored : World → Text → Option Text
restored w d = non_empty (w.files (backup d))

-- The file is the live file of a domain of the list.
abbrev pub is_live_of : List Text → FilePath → Bool
is_live_of [] q = false
is_live_of (d ∷ ds) q = path_eq (live d) q || is_live_of ds q

module _ (env : Env) where
  rollback_step-Keeps :
      (d : Text) (r : Result Text) (w : World) (q : FilePath)
      → is_temp q ≡ false
      → path_eq (live d) q ≡ false
      → (rollback_step env d r w).files q ≡ w.files q
  unfolding rollback_step
  rollback_step-Keeps d (err e) w q h l = (remove-Keeps env (live d) l).kept w
  rollback_step-Keeps d (ok []) w q h l = (remove-Keeps env (live d) l).kept w
  rollback_step-Keeps d (ok (c ∷ cs)) w q h l = (write-Keeps env (live d) (c ∷ cs) h l).kept w

  -- Whatever fails, a rollback writes no file but the live files of its domains.
  pub rollback_from_backup-Keeps :
      (ds : List Text) (w : World) (q : FilePath)
      → is_temp q ≡ false
      → is_live_of ds q ≡ false
      → (rollback_from_backup env ds w).files q ≡ w.files q
  unfolding rollback_from_backup
  rollback_from_backup-Keeps [] w q h l = refl
  rollback_from_backup-Keeps (d ∷ ds) w q h l =
      let w' : World = (read_file env (backup d) w).1 in
      let r : Result Text = (read_file env (backup d) w).0 in
      ground (
        arith,
        rollback_from_backup-Keeps ds (rollback_step env d r w') q h,
        rollback_step-Keeps d r w' q h,
        (read_file-Keeps env {q = q} (backup d)).kept w,
      )

module _ (env : Env) (reliable : Reliable env) where
  remove_reliable : (d : Text) (w : World) → (remove env (live d) w).1.files (live d) ≡ none
  unfolding remove ◌>>◌ found
  remove_reliable d w = ground (arith, read_file_reliable env reliable (live d) w, text_eq_refl d)

  step_live :
      (d : Text) (o : Option Text) (w : World)
      → (rollback_step env d (found env o w).0 (found env o w).1).files (live d) ≡ non_empty o
  unfolding rollback_step found
  step_live d none w = remove_reliable d w
  step_live d (some []) w = remove_reliable d w
  step_live d (some (c ∷ cs)) w = ground (
    arith,
    files-write_file_atomic env (live d) (c ∷ cs) w (live d) refl,
    write_file_atomic_succeeds env reliable (live d) (c ∷ cs) w,
    text_eq_refl d,
  )

  step_world : Text → World → World
  step_world d w = rollback_step env d (read_file env (backup d) w).0 (read_file env (backup d) w).1

  step_world-live :
      (x d : Text) (w : World)
      → (step_world x w).files (live d) ≡ (if text_eq x d then restored w d else w.files (live d))
  unfolding step_world
  step_world-live x d w = elim (Bool-cases (text_eq x d)) [
    | inl e ↦
        rw (read_file_reliable env reliable (backup x) w, (text_eq_iff x d).0 e, text_eq_refl d)
          (step_live d (w.files (backup d)) (tick w))
    | inr e ↦ ground (
      arith,
      rollback_step-Keeps env x (read_file env (backup x) w).0 (read_file env (backup x) w).1
          (live d) refl e,
      (read_file-Keeps env {q = live d} (backup x)).kept w,
    )
  ]

  step_world-backup :
      (x d : Text) (w : World) → (step_world x w).files (backup d) ≡ w.files (backup d)
  unfolding step_world
  step_world-backup x d w =
      rollback_step-Keeps env x (read_file env (backup x) w).0 (read_file env (backup x) w).1
        (backup d) refl refl
      ∙ (read_file-Keeps env {q = backup d} (backup x)).kept w

  -- Where no file operation fails, each domain's live file is then its backup, and is gone where the
  -- backup is missing or empty; the other live files stay.
  pub rollback_from_backup-live :
      (ds : List Text) (w : World) (d : Text)
      → (rollback_from_backup env ds w).files (live d)
        ≡ (if elem d ds then restored w d else w.files (live d))
  unfolding rollback_from_backup step_world
  rollback_from_backup-live [] w d = refl
  rollback_from_backup-live (x ∷ ds) w d = ground (
    arith,
    rollback_from_backup-live ds (step_world x w) d,
    step_world-live x d w,
    step_world-backup x d w,
  )
