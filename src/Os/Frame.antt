-- ===== src/Os/Frame.antt =====
-- Code that leaves a file alone: a rule for each call and for each way of composing them.
use ngm.Base.{
  ◌||◌, ◌≡◌, refl, ap, ◌∙◌, Bool, true, false, Option, none, some, arith, if◌then◌else◌, Result, ok,
  err, wrap_step, bind_step, wrapping, return, fail, try, ◌>>=◌, ◌>>◌, Error, errorf, ◌⊎◌, inl, inr,
  Option-cases, is_ok,
}
use ngm.Text.{Text, text, text_eq, is_empty}
use ngm.Os.Paths.{FilePath, is_temp, path_eq, path_eq_refl}
use ngm.Os.{
  Env, World, Io, call, mkdir_all, read_file, stat, remove, write_file_atomic, found, tick, missing,
}
use ngm.Os.Atomic.{files-write_file_atomic}

-- Whatever the world is before, the file `q` holds the same after `m`.
pub record Keeps {A : Type 0} (q : FilePath) (m : Io A) : Type 0 where
  pub kept : (w : World) → (m w).1.files q ≡ w.files q

module _ {q : FilePath} {A B : Type 0} where
  bind_kept :
      (w : World) (f : A → Io B) (x : Result A × World)
      → ((a : A) → Keeps q (f a))
      → x.1.files q ≡ w.files q
      → (bind_step x f).1.files q ≡ w.files q
  bind_kept w f (ok a, w') k e = (k a).kept w' ∙ e
  bind_kept w f (err e', w') k e = e

  pub >>=-Keeps :
      {m : Io A} {f : A → Io B} → Keeps q m → ((a : A) → Keeps q (f a)) → Keeps q (m >>= f)
  unfolding ◌>>=◌
  >>=-Keeps {m} {f} h k = record { kept = λ w. bind_kept w f (m w) k (h.kept w) }

  pub >>-Keeps : {m : Io A} {f : Io B} → Keeps q m → Keeps q f → Keeps q (m >> f)
  unfolding ◌>>◌
  >>-Keeps {m} {f} h k = record { kept = λ w. bind_kept w (λ _. f) (m w) (λ _. k) (h.kept w) }

module _ {q : FilePath} {A : Type 0} where
  wrap_kept : (s : Text) (x : Result A × World) → (wrap_step s x).1.files q ≡ x.1.files q
  wrap_kept s (ok a, w') = refl
  wrap_kept s (err e, w') = refl

  pub wrapping-Keeps : (s : Text) {m : Io A} → Keeps q m → Keeps q (wrapping s m)
  unfolding wrapping
  wrapping-Keeps s {m} h = record { kept = λ w. wrap_kept s (m w) ∙ h.kept w }

  pub try-Keeps : {m : Io A} → Keeps q m → Keeps q (try m)
  unfolding try
  try-Keeps h = record { kept = h.kept }

  pub return-Keeps : (a : A) → Keeps q (return a)
  unfolding return
  return-Keeps a = record { kept = λ w. refl }

  pub fail-Keeps : (e : Error) → Keeps q (fail {A = A} e)
  unfolding fail
  fail-Keeps e = record { kept = λ w. refl }

  pub if-Keeps : (b : Bool) {m n : Io A} → Keeps q m → Keeps q n → Keeps q (if b then m else n)
  if-Keeps true h k = h
  if-Keeps false h k = k

module _ (env : Env) {q : FilePath} where
  pub call-Keeps : Keeps q (call env)
  unfolding call
  call-Keeps = record { kept = λ w. ground arith }

  pub mkdir_all-Keeps : (d : Text) → Keeps q (mkdir_all env d)
  unfolding mkdir_all
  mkdir_all-Keeps d =
      if-Keeps (is_empty d || text_eq d (text ".")) (return-Keeps tt) (wrapping-Keeps _ call-Keeps)

  pub read_file-Keeps : (p : FilePath) → Keeps q (read_file env p)
  unfolding read_file ◌>>◌
  read_file-Keeps p = record { kept = λ w. ground arith }

  pub stat-Keeps : (p : FilePath) → Keeps q (stat env p)
  unfolding stat ◌>>◌ return
  stat-Keeps p = record { kept = λ w. ground arith }

  pub remove-Keeps : (p : FilePath) → path_eq p q ≡ false → Keeps q (remove env p)
  unfolding remove ◌>>◌
  remove-Keeps p h = record { kept = λ w. ground arith }

  pub write-Keeps :
      (p : FilePath) (s : Text)
      → is_temp q ≡ false
      → path_eq p q ≡ false
      → Keeps q (write_file_atomic env p s)
  write-Keeps p s h k = record { kept = λ w. ground (arith, files-write_file_atomic env p s w q h) }

module _ (env : Env) where
  pub call-world : (w : World) → (call env w).1 ≡ tick w
  unfolding call
  call-world w = ground arith

  found-cases :
      (o : Option Text) (w : World)
      → ((c : Text) × (found env o w ≡ (ok c, w)) × (o ≡ some c))
        ⊎ ((e : Error) × (found env o w ≡ (err e, w)) × (e.not_exist ≡ true → o ≡ none))
  unfolding found
  found-cases none w = inr (missing, refl, λ _. refl)
  found-cases (some c) w = inl (c, refl, refl)

  call-cases :
      (w : World)
      → (call env w ≡ (ok tt, tick w)) ⊎ ((m : Text) × (call env w ≡ (err (errorf m), tick w)))
  unfolding call
  call-cases w = elim (Option-cases (env.fault w.clock)) [
    | inl e ↦ inl (rw (e, call))
    | inr (m, e) ↦ inr (m, rw (e, call))
  ]

  -- A read gives the file's content, or an error.
  pub read_file-cases :
      (p : FilePath) (w : World)
      → ((c : Text) × (read_file env p w ≡ (ok c, tick w)) × (w.files p ≡ some c))
        ⊎ ((e : Error) × (read_file env p w ≡ (err e, tick w))
            × (e.not_exist ≡ true → w.files p ≡ none))
  unfolding read_file ◌>>◌
  read_file-cases p w = elim (call-cases w) [
    | inr (m, r) ↦ inr (errorf m, rw r, λ h. cc)
    | inl r ↦ rw r (found-cases (w.files p) (tick w))
  ]

  pub stat-cases :
      (p : FilePath) (w : World)
      → ((c : Text) × (stat env p w ≡ (ok tt, tick w)) × (w.files p ≡ some c))
        ⊎ ((e : Error) × (stat env p w ≡ (err e, tick w)) × (e.not_exist ≡ true → w.files p ≡ none))
  unfolding stat ◌>>◌ return
  stat-cases p w = elim (read_file-cases p w) [
    | inr (e, r, h) ↦ inr (e, rw r, h)
    | inl (c, r, h) ↦ inl (c, rw r, h)
  ]

  -- What `Remove` leaves at the path.
  pub remove_path :
      (p : FilePath) (w : World)
      → (remove env p w).1.files p ≡ (if is_ok (remove env p w).0 then none else w.files p)
  unfolding remove ◌>>=◌ ◌>>◌
  remove_path p w = elim (read_file-cases p w) [
    | inl (c, r, h) ↦ ground (arith, path_eq_refl p)
    | inr (e, r, h) ↦ ground arith
  ]

  pub stat-world : (p : FilePath) (w : World) → (stat env p w).1 ≡ tick w
  stat-world p w = elim (stat-cases p w) [
    | inl (c, r, h) ↦ ap (λ x. x.1) r
    | inr (e, r, h) ↦ ap (λ x. x.1) r
  ]
