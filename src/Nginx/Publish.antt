-- ===== src/Nginx/Publish.antt =====
-- What `Publish` and `RemoveLiveSite` do to the files.
use ngm.Base.{
  ◌≡◌, refl, Bool, false, none, some, arith, if◌then◌else◌, is_ok, Result, ok, err, wrapping,
  return, fail, try, ◌>>=◌, ◌>>◌, inl, inr,
}
use ngm.Text.{Text, is_empty}
use ngm.Text.Laws.{text_eq_iff}
use ngm.Os.Paths.{FilePath, live, staged, backup, is_temp, path_eq, path_eq_refl}
use ngm.Os.{Env, World, stat, write_file_atomic, tick}
use ngm.Os.Atomic.{files-write_file_atomic}
use ngm.Os.Frame.{
  read_file-cases, stat-cases, remove_path, Keeps, >>=-Keeps, >>-Keeps, wrapping-Keeps, try-Keeps,
  if-Keeps, return-Keeps, fail-Keeps, read_file-Keeps, stat-Keeps, remove-Keeps, write-Keeps,
}
use ngm.Nginx.{publish, replace_live, backup_found, remove_live_site, remove_found, same_content}

-- `Publish` says that it changed the live file.
abbrev pub changed : Result Bool → Bool
changed (ok b) = b
changed (err e) = false

module _ (env : Env) (d : Text) (q : FilePath) (h : is_temp q ≡ false) where
  module _ (k : path_eq (backup d) q ≡ false) where
    pub backup_found-Keeps : (r : Result (Unit {0})) → Keeps q (backup_found env r d)
    unfolding backup_found
    backup_found-Keeps (err e) = return-Keeps _
    backup_found-Keeps (ok u) =
        >>=-Keeps (wrapping-Keeps _ (read_file-Keeps env (live d)))
          λ old. wrapping-Keeps _ (write-Keeps env (backup d) old h k)

    module _ (l : path_eq (live d) q ≡ false) where
      replace_live-Keeps : (s : Text) → Keeps q (replace_live env d s)
      unfolding replace_live
      replace_live-Keeps s = >>=-Keeps (try-Keeps (stat-Keeps env (live d))) λ there.
          >>-Keeps (backup_found-Keeps there)
            (>>-Keeps (wrapping-Keeps _ (write-Keeps env (live d) s h l)) (return-Keeps _))

      -- `Publish` of a domain writes no file but its live file and its backup, whatever fails.
      pub publish-Keeps : Keeps q (publish env d)
      unfolding publish
      publish-Keeps = if-Keeps (is_empty d) (fail-Keeps _) (
          >>=-Keeps (wrapping-Keeps _ (read_file-Keeps env (staged d))) λ s.
            >>=-Keeps (try-Keeps (read_file-Keeps env (live d))) λ current.
              if-Keeps (same_content env current s) (return-Keeps _) (replace_live-Keeps s))

module _ (env : Env) (d : Text) where
  replace_live-live :
      (s : Text) (w : World)
      → (replace_live env d s w).1.files (live d)
        ≡ (if is_ok (replace_live env d s w).0 then some s else w.files (live d))
  unfolding replace_live ◌>>=◌ ◌>>◌ try wrapping return
  replace_live-live s w =
      let w' : World = (stat env (live d) w).1 in
      let r : Result (Unit {0}) = (stat env (live d) w).0 in
      ground (
        arith,
        (stat-Keeps env {q = live d} (live d)).kept w,
        (backup_found-Keeps env d (live d) refl refl r).kept w',
        files-write_file_atomic env (live d) s (backup_found env r d w').1 (live d) refl,
        path_eq_refl (live d),
      )

  -- Whatever fails, `Publish` leaves the staged content live if it returns no error, and the live file
  -- as it was if it returns one.
  pub publish-live :
      (w : World)
      → (publish env d w).1.files (live d)
        ≡ (if is_ok (publish env d w).0 then w.files (staged d) else w.files (live d))
  unfolding publish ◌>>=◌ ◌>>◌ try wrapping return fail same_content
  publish-live w = elim (read_file-cases env (staged d) w) [
    | inr (e, r, _) ↦ ground arith
    | inl (c, r, has) ↦ elim (read_file-cases env (live d) (tick w)) [
      | inr (e, r', _) ↦ ground (arith, replace_live-live c (tick (tick w)))
      | inl (c', r', has') ↦ ground (arith, replace_live-live c (tick (tick w)), text_eq_iff c' c)
    ]
  ]

module _ (env : Env) (d : Text) (q : FilePath) (h : is_temp q ≡ false) where
  module _ (k : path_eq (backup d) q ≡ false) (l : path_eq (live d) q ≡ false) where
    remove_found-Keeps : (r : Result (Unit {0})) → Keeps q (remove_found env r d)
    unfolding remove_found
    remove_found-Keeps (err e) = if-Keeps e.not_exist (return-Keeps _) (fail-Keeps _)
    remove_found-Keeps (ok u) = >>=-Keeps (wrapping-Keeps _ (read_file-Keeps env (live d))) λ old.
        >>-Keeps (wrapping-Keeps _ (write-Keeps env (backup d) old h k))
          (wrapping-Keeps _ (remove-Keeps env (live d) l))

    -- `RemoveLiveSite` of a domain writes no file but its live file and its backup.
    pub remove_live_site-Keeps : Keeps q (remove_live_site env d)
    unfolding remove_live_site
    remove_live_site-Keeps =
        >>=-Keeps (try-Keeps (stat-Keeps env (live d))) λ there. remove_found-Keeps there

module _ (env : Env) (d : Text) where
  -- Whatever fails, `RemoveLiveSite` leaves no live file if it returns no error, and the live file as
  -- it was if it returns one.
  pub remove_live_site-live :
      (w : World)
      → (remove_live_site env d w).1.files (live d)
        ≡ (if is_ok (remove_live_site env d w).0 then none else w.files (live d))
  unfolding remove_live_site remove_found ◌>>=◌ ◌>>◌ try wrapping return fail
  remove_live_site-live w = elim (stat-cases env (live d) w) [
    | inr (e, r, gone) ↦ ground arith
    | inl (c, r, has) ↦ elim (read_file-cases env (live d) (tick w)) [
      | inr (e, r', _) ↦ ground arith
      | inl (c', r', has') ↦
          let w' : World = (write_file_atomic env (backup d) c' (tick (tick w))).1 in
          ground (
            arith,
            files-write_file_atomic env (backup d) c' (tick (tick w)) (live d) refl,
            remove_path env (live d) w',
          )
    ]
  ]
