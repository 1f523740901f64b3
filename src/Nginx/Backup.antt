-- ===== src/Nginx/Backup.antt =====
-- What `Publish` and `RemoveLiveSite` leave in the backup where no file operation fails.
use ngm.Base.{
  ◌≡◌, refl, true, false, Option, none, some, arith, is_ok, Result, ok, err, wrapping, return, fail,
  try, ◌>>=◌, ◌>>◌, inl, inr, Option-cases, Bool,
}
use ngm.Text.{Text}
use ngm.Text.Laws.{text_eq_iff, text_eq_refl}
use ngm.Os.Paths.{live, staged, backup}
use ngm.Os.{Env, World, stat, write_file_atomic, tick, found}
use ngm.Os.Atomic.{
  Reliable, files-write_file_atomic, write_file_atomic_succeeds, read_file_reliable, stat_reliable,
}
use ngm.Os.Frame.{read_file-cases, stat-world, remove-Keeps}
use ngm.Nginx.{publish, replace_live, backup_found, remove_live_site, remove_found, same_content}

abbrev is_some : Option Text → Bool
is_some none = false
is_some (some c) = true

-- What a backup holds once the live file has been replaced or removed: the live file as it was, or,
-- if there was none, what the backup held.
abbrev pub saved : World → Text → Option Text
saved w d = elim (w.files (live d)) [ none ↦ w.files (backup d) | some c ↦ some c ]

module _ (env : Env) (reliable : Reliable env) (d : Text) where
  backup_found-backup :
      (r : Result (Unit {0})) (w : World)
      → is_ok r ≡ is_some (w.files (live d))
      → (backup_found env r d w).1.files (backup d) ≡ saved w d
  unfolding backup_found ◌>>=◌ wrapping return found
  backup_found-backup (err e) w h = ground arith
  backup_found-backup (ok u) w h = elim (Option-cases (w.files (live d))) [
    | inl e ↦ ground arith
    | inr (c, e) ↦ ground (
      arith,
      read_file_reliable env reliable (live d) w,
      files-write_file_atomic env (backup d) c (tick w) (backup d) refl,
      write_file_atomic_succeeds env reliable (backup d) c (tick w),
      text_eq_refl d,
    )
  ]

  stat_found : (w : World) → is_ok (stat env (live d) w).0 ≡ is_some (w.files (live d))
  stat_found w = ground (arith, stat_reliable env reliable (live d) w)

  replace_live-backup :
      (s : Text) (w : World)
      → is_ok (replace_live env d s w).0 ≡ true
      → (replace_live env d s w).1.files (backup d) ≡ saved w d
  unfolding replace_live ◌>>=◌ ◌>>◌ try wrapping return
  replace_live-backup s w h =
      let r : Result (Unit {0}) = (stat env (live d) w).0 in
      let w' : World = (stat env (live d) w).1 in
      ground (
        arith,
        stat_found w,
        stat-world env (live d) w,
        backup_found-backup r (tick w),
        files-write_file_atomic env (live d) s (backup_found env r d (tick w)).1 (backup d) refl,
      )

  -- Where no file operation fails, a backup then holds the live file that was replaced.
  pub publish-backup :
      (w : World) → (publish env d w).0 ≡ ok true → (publish env d w).1.files (backup d) ≡ saved w d
  unfolding publish ◌>>=◌ ◌>>◌ try wrapping return fail same_content
  publish-backup w h = elim (read_file-cases env (staged d) w) [
    | inr (e, r, _) ↦ ground arith
    | inl (c, r, has) ↦ elim (read_file-cases env (live d) (tick w)) [
      | inr (e, r', _) ↦ ground (arith, replace_live-backup c (tick (tick w)))
      | inl (c', r', has') ↦ ground (arith, replace_live-backup c (tick (tick w)), text_eq_iff c' c)
    ]
  ]

  remove_found-backup :
      (r : Result (Unit {0})) (w : World)
      → is_ok r ≡ is_some (w.files (live d))
      → is_ok (remove_found env r d w).0 ≡ true
      → (remove_found env r d w).1.files (backup d) ≡ saved w d
  unfolding remove_found ◌>>=◌ ◌>>◌ wrapping return fail found
  remove_found-backup (err e) w h g = ground arith
  remove_found-backup (ok u) w h g = elim (Option-cases (w.files (live d))) [
    | inl e ↦ ground arith
    | inr (c, e) ↦
        let w' : World = (write_file_atomic env (backup d) c (tick w)).1 in
        ground (
          arith,
          read_file_reliable env reliable (live d) w,
          files-write_file_atomic env (backup d) c (tick w) (backup d) refl,
          (remove-Keeps env {q = backup d} (live d) refl).kept w',
          text_eq_refl d,
        )
  ]

  -- Where no file operation fails, a backup then holds the live file that was removed.
  pub remove_live_site-backup :
      (w : World)
      → is_ok (remove_live_site env d w).0 ≡ true
      → (remove_live_site env d w).1.files (backup d) ≡ saved w d
  unfolding remove_live_site ◌>>=◌ try
  remove_live_site-backup w h = ground (
    arith,
    stat_found w,
    stat-world env (live d) w,
    remove_found-backup (stat env (live d) w).0 (tick w),
  )
