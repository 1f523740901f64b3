-- ===== src/Os/Atomic.antt =====
-- `WriteFileAtomic` is all or nothing.
use ngm.Base.{
  Bool-cases, inl, inr, ◌||◌, ℕ, ◌≡◌, refl, true, false, ◌&&◌, none, some, arith, if◌then◌else◌,
  is_ok, Result, ok, err, wrapping, return, ◌>>=◌, ◌>>◌, ◌++◌,
}
use ngm.Text.{Text, text, text_eq, is_empty}
use ngm.Os.Paths.{FilePath, temp, path_eq, is_temp, path_eq-temp, path_eq_refl}
use ngm.Os.{
  Env, World, mkdir_all, read_file, create_temp, fill_temp, rename, remove, fill_and_rename,
  discard_on_error, write_file_atomic, call, found, tick, put, write, stat, missing,
}

module _ (env : Env) where
  fill_temp-files :
      (n : ℕ) (s : Text) (w : World) (q : FilePath)
      → is_temp q ≡ false
      → (fill_temp env n s w).1.files q ≡ w.files q
  unfolding ◌>>=◌ ◌>>◌ wrapping fill_temp
  fill_temp-files n s w q h = ground (arith, path_eq-temp n q)

  fill_temp_content :
      (n : ℕ) (s : Text) (w : World)
      → is_ok (fill_temp env n s w).0 ≡ true
      → (fill_temp env n s w).1.files (temp n) ≡ some s
  unfolding ◌>>=◌ ◌>>◌ wrapping fill_temp
  fill_temp_content n s w h = ground (arith, path_eq_refl (temp n))

  -- After the attempt the target holds all of the data or what it held, and no other file but the
  -- temporary ones is touched, whatever calls fail.
  fill_and_rename-files :
      (n : ℕ) (p : FilePath) (s : Text) (w : World) (q : FilePath)
      → is_temp q ≡ false
      → (fill_and_rename env n p s w).1.files q
        ≡ (if is_ok (fill_and_rename env n p s w).0 && path_eq p q then some s else w.files q)
  unfolding ◌>>=◌ ◌>>◌ wrapping fill_and_rename rename
  fill_and_rename-files n p s w q h =
      ground (arith, fill_temp-files n s w q h, fill_temp_content n s w, path_eq-temp n q)

  discard_on_error_files :
      (n : ℕ) (x : Result (Unit {0}) × World) (q : FilePath)
      → is_temp q ≡ false
      → (discard_on_error env n x).1.files q ≡ x.1.files q
  unfolding ◌>>=◌ ◌>>◌ wrapping discard_on_error remove
  discard_on_error_files n (ok u, w) q h = refl
  discard_on_error_files n (err e, w) q h = ground (arith, path_eq-temp n q)

  discard_on_error_result :
      (n : ℕ) (x : Result (Unit {0}) × World) → is_ok (discard_on_error env n x).0 ≡ is_ok x.0
  unfolding ◌>>=◌ ◌>>◌ wrapping discard_on_error
  discard_on_error_result n (ok u, w) = refl
  discard_on_error_result n (err e, w) = refl

  -- What follows the making of the directory.
  temp_and_rename : FilePath → Text → World → Result (Unit {0}) × World
  unfolding create_temp
  temp_and_rename p s = do
    n ← wrapping (text "create temp in " ++ env.dir_text p) (create_temp env)
    (λ w. discard_on_error env n (fill_and_rename env n p s w))

  renamed :
      (p : FilePath) (s : Text) (q : FilePath)
      → is_temp q ≡ false
      → (w : World)
      → (temp_and_rename p s w).1.files q
        ≡ (if is_ok (temp_and_rename p s w).0 && path_eq p q then some s else w.files q)
  unfolding ◌>>=◌ ◌>>◌ wrapping temp_and_rename create_temp call
  renamed p s q h w =
      let w' : World =
        (wrapping (text "create temp in " ++ env.dir_text p) (create_temp env) w).1 in
      let n : ℕ = w.clock in
      ground (
        arith,
        fill_and_rename-files n p s w' q h,
        discard_on_error_files n (fill_and_rename env n p s w') q h,
        discard_on_error_result n (fill_and_rename env n p s w'),
        path_eq-temp n q h,
      )

  -- Whatever calls fail, the target then holds all of the data if no error is returned and what it
  -- held before if one is, and no other file but the temporary ones is changed.
  pub files-write_file_atomic :
      (p : FilePath) (s : Text) (w : World) (q : FilePath)
      → is_temp q ≡ false
      → (write_file_atomic env p s w).1.files q
        ≡ (if is_ok (write_file_atomic env p s w).0 && path_eq p q then some s else w.files q)
  unfolding ◌>>=◌ ◌>>◌ wrapping write_file_atomic mkdir_all call temp_and_rename return
  files-write_file_atomic p s w q h =
      elim (Bool-cases (is_empty (env.dir_text p) || text_eq (env.dir_text p) (text "."))) [
        | inl e ↦ rw e (renamed p s q h w)
        | inr e ↦ rw e (ground (arith, renamed p s q h (tick w)))
      ]

-- No file operation fails. Commands still may.
abbrev pub Reliable : Env → Type 0
Reliable env = (n : ℕ) → env.fault n ≡ none

module _ (env : Env) (reliable : Reliable env) where
  pub call_reliable : (w : World) → call env w ≡ (ok tt, tick w)
  unfolding ◌>>=◌ ◌>>◌ wrapping call
  call_reliable w = rw (reliable w.clock, call) refl

  pub read_file_reliable :
      (p : FilePath) (w : World) → read_file env p w ≡ found env (w.files p) (tick w)
  unfolding ◌>>=◌ ◌>>◌ wrapping read_file
  read_file_reliable p w = rw (call_reliable w) refl

  write_reliable :
      (n : ℕ) (s : Text) (w : World) → write env n s w ≡ (ok tt, put (temp n) (some s) (tick w))
  unfolding ◌>>=◌ ◌>>◌ wrapping write
  write_reliable n s w = rw (reliable w.clock, write) refl

  fill_temp_reliable : (n : ℕ) (s : Text) (w : World) → is_ok (fill_temp env n s w).0 ≡ true
  unfolding ◌>>=◌ ◌>>◌ wrapping fill_temp
  fill_temp_reliable n s w = simp (call_reliable, write_reliable)

  fill_and_rename_reliable :
      (n : ℕ) (p : FilePath) (s : Text) (w : World) → is_ok (fill_and_rename env n p s w).0 ≡ true
  unfolding ◌>>=◌ ◌>>◌ wrapping fill_and_rename rename found
  fill_and_rename_reliable n p s w =
      let w' : World = (fill_temp env n s w).1 in
      ground (
        arith,
        fill_temp_reliable n s w,
        fill_temp_content env n s w,
        read_file_reliable (temp n) w',
      )

  -- Where no call fails, `WriteFileAtomic` returns no error.
  pub write_file_atomic_succeeds :
      (p : FilePath) (s : Text) (w : World) → is_ok (write_file_atomic env p s w).0 ≡ true
  unfolding ◌>>=◌ ◌>>◌ wrapping write_file_atomic mkdir_all return
  write_file_atomic_succeeds p s w =
      elim (Bool-cases (is_empty (env.dir_text p) || text_eq (env.dir_text p) (text "."))) [
        | inl e ↦ rw e (
            simp call_reliable
              (rw (discard_on_error_result env) (fill_and_rename_reliable _ p s _)))
        | inr e ↦ rw e (
            simp call_reliable
              (rw (discard_on_error_result env) (fill_and_rename_reliable _ p s _)))
      ]

  -- The outcome of `os.Stat` is that of reading, without the content.
  pub stat_reliable :
      (p : FilePath) (w : World)
      → stat env p w
        ≡ (elim (w.files p) [ none ↦ (err missing, tick w) | some c ↦ (ok tt, tick w) ])
  unfolding stat ◌>>◌ return found
  stat_reliable p w = ground (arith, read_file_reliable p w)
