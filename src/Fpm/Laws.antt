-- ===== src/Fpm/Laws.antt =====
-- What `EnsurePool` of internal/fpm/ensure.go leaves on disk, and when it reloads.
use ngm.Base.{
  ◌≡◌, refl, ap, ◌∙◌, Bool, true, false, ◌||◌, [], ◌∷◌, Option, none, some, Error, Result, ok, err,
  is_ok, not, Result-cases, if◌then◌else◌, arith, Bool-cases, inl, inr, Option-cases, bind_step,
  return, ◌>>◌,
}
use ngm.Text.{Text, text, is_empty}
use ngm.Text.Laws.{text_eq_iff}
use ngm.Text.Place.{dir}
use ngm.Os.Paths.{FilePath, other, path_eq_refl}
use ngm.Os.{Env, World, mkdir_all, read_file, write_file_atomic}
use ngm.Os.Atomic.{files-write_file_atomic}
use ngm.Os.Frame.{mkdir_all-Keeps, read_file-cases, read_file-Keeps}
use ngm.Names.{socket_path, pool_file_path}
use ngm.Fpm.{
  PoolData, PoolAnswer, ensure_pool, with_content, with_socket, compared, same_as, pool_written,
  pool_reloaded, pool_failed, reload_service, write_pool_file_atomic, make_log_dir,
}

unfoldable pub is_none : Option Error → Bool
is_none none = true
is_none (some e) = false

-- What the pool file holds after the call, with this content for the pool.
unfoldable pub pool_after : Text → Option Text → PoolAnswer → Option Text
pool_after content old a = if a.changed || is_none a.failure then some content else old

-- What the file holds after the call, with this result of the template.
abbrev pub file_after : Result Text → Option Text → PoolAnswer → Option Text
file_after (ok content) old a = pool_after content old a
file_after (err e) old a = old

module _ (env : Env) (render : PoolData → Result Text) where
  pub mkdir_all-files :
      (d : Text) (q : FilePath) (w : World) → (mkdir_all env d w).1.files q ≡ w.files q
  mkdir_all-files d q w = (mkdir_all-Keeps env {q = q} d).kept w

  make_log_dir-files :
      (d : Text) (q : FilePath) (w : World) → (make_log_dir env render d w).1.files q ≡ w.files q
  unfolding make_log_dir return
  make_log_dir-files d q w = elim (Bool-cases (is_empty d)) [
    | inl e ↦ rw e refl
    | inr e ↦ rw e (mkdir_all-files (dir d) q w)
  ]

  pub log_dirs-files :
      (td : PoolData) (q : FilePath) (w : World)
      → (make_log_dir env render td.slowlog_path (make_log_dir env render td.error_log w).1).1.files
          q
        ≡ w.files q
  log_dirs-files td q w =
      make_log_dir-files td.slowlog_path q _ ∙ make_log_dir-files td.error_log q w

  pub reload_service-files :
      (service : Text) (w : World) → (reload_service env render service w).1.files ≡ w.files
  unfolding reload_service
  reload_service-files service w =
      elim (Option-cases
        (env.run w.clock (text "systemctl" ∷ text "reload" ∷ service ∷ []) w.files).failure) [
          | inl e ↦ rw (e, reload_service) refl
          | inr (e', e) ↦ rw (e, reload_service) refl
        ]

  reloaded-file :
      (path socket content : Text) (old : Option Text) (x : Result (Unit {0}) × World)
      → x.1.files (other path) ≡ some content
      → (pool_reloaded env render socket x).1.files (other path)
        ≡ pool_after content old (pool_reloaded env render socket x).0
  unfolding pool_reloaded pool_failed pool_after is_none
  reloaded-file path socket content old (ok u, w) h = h
  reloaded-file path socket content old (err e, w) h = h

  written-file :
      (path service socket content : Text) (old : Option Text) (x : Result (Unit {0}) × World)
      → x.1.files (other path) ≡ (if is_ok x.0 then some content else old)
      → (pool_written env render path service socket x).1.files (other path)
        ≡ pool_after content old (pool_written env render path service socket x).0
  unfolding pool_written pool_failed pool_after is_none
  written-file path service socket content old (ok u, w) h =
      reloaded-file path socket content old (reload_service env render service w)
        (ap (λ f. f (other path)) (reload_service-files service w) ∙ h)
  written-file path service socket content old (err e, w) h = h

  after_mkdir :
      (path content : Text) (x : Result (Unit {0}) × World)
      → (bind_step x (λ _. write_file_atomic env (other path) content)).1.files (other path) ≡ (
          if is_ok (bind_step x (λ _. write_file_atomic env (other path) content)).0
          then some content
          else x.1.files (other path))
  after_mkdir path content (ok u, w) = ground (
    arith,
    files-write_file_atomic env (other path) content w (other path) refl,
    path_eq_refl (other path),
  )
  after_mkdir path content (err e, w) = refl

  write_pool-file :
      (path content : Text) (w : World)
      → (write_pool_file_atomic env render path content w).1.files (other path) ≡ (
          if is_ok (write_pool_file_atomic env render path content w).0
          then some content
          else w.files (other path))
  unfolding write_pool_file_atomic ◌>>◌
  write_pool-file path content w =
      after_mkdir path content (mkdir_all env (dir path) w)
      ∙ ap
          (λ old.
            if is_ok
              (bind_step (mkdir_all env (dir path) w)
                (λ _. write_file_atomic env (other path) content)).0
            then some content
            else old)
          (mkdir_all-files (dir path) (other path) w)

  same_as-content :
      (content : Text) (r : Result Text) → same_as env render content r ≡ true → r ≡ ok content
  unfolding same_as
  same_as-content content (ok old) h = ap ok ((text_eq_iff old content).0 h)
  same_as-content content (err e) h = cc

  compared-file :
      (path service socket content : Text) (r : Result Text) (w : World)
      → (r ≡ ok content → w.files (other path) ≡ some content)
      → (compared env render path service socket content (r, w)).1.files (other path)
        ≡ pool_after content
            (w.files (other path))
            (compared env render path service socket content (r, w)).0
  unfolding compared pool_after is_none
  compared-file path service socket content r w k =
      elim (Bool-cases (same_as env render content r)) [
        | inl e ↦ rw e (k (same_as-content content r e))
        | inr e ↦ rw e (
            written-file path service socket content (w.files (other path))
              (write_pool_file_atomic env render path content w) (write_pool-file path content w))
      ]

  read-file :
      (path content : Text) (w : World)
      → (read_file env (other path) w).0 ≡ ok content
      → (read_file env (other path) w).1.files (other path) ≡ some content
  read-file path content w h = elim (read_file-cases env (other path) w) [
    | inl (c, same, is_there) ↦ let here : c ≡ content = cc in rw (same) (is_there ∙ ap some here)
    | inr (e, same, _) ↦ cc
  ]

  with_content-file :
      (path service socket content : Text) (w : World)
      → (with_content env render path service socket (ok content) w).1.files (other path)
        ≡ pool_after content
            (w.files (other path))
            (with_content env render path service socket (ok content) w).0
  unfolding with_content
  with_content-file path service socket content w =
      let w1 : World = (mkdir_all env (dir path) w).1 in
      let x : Result Text × World = read_file env (other path) w1 in
      compared-file path service socket content x.0 x.1 (read-file path content w1)
      ∙ ap (λ old. pool_after content old (compared env render path service socket content x).0)
          ((read_file-Keeps env (other path)).kept w1 ∙ mkdir_all-files (dir path) (other path) w)

  pub ensure_pool-content :
      (pools_dir service sock_dir domain version : Text) (td : PoolData) (content : Text)
      (w : World)
      → render (with_socket env render (socket_path sock_dir domain version) td) ≡ ok content
      → (ensure_pool env render pools_dir service sock_dir domain version td w).1.files
          (other (pool_file_path pools_dir domain))
        ≡ pool_after content
            (w.files (other (pool_file_path pools_dir domain)))
            (ensure_pool env render pools_dir service sock_dir domain version td w).0
  unfolding ensure_pool pool_failed pool_after is_none
  ensure_pool-content pools_dir service sock_dir domain version td content w h =
      elim (Bool-cases (is_empty domain)) [
        | inl e ↦ rw e refl
        | inr e ↦
            elim (Bool-cases (
              is_empty pools_dir
              || (is_empty service || (is_empty sock_dir || is_empty version)))) [
                | inl e' ↦ rw (e, e') refl
                | inr e' ↦
                    rw (e, e', h)
                      (let w2 : World =
                          (make_log_dir env render td.slowlog_path
                            (make_log_dir env render td.error_log w).1).1 in
                        with_content-file (pool_file_path pools_dir domain) service
                          (socket_path sock_dir domain version) content w2
                        ∙ ap
                            (λ old.
                              pool_after content old
                                (with_content env render (pool_file_path pools_dir domain) service
                                  (socket_path sock_dir domain version) (ok content) w2).0)
                            (log_dirs-files td (other (pool_file_path pools_dir domain)) w))
              ]
      ]

  -- Where the template does not render, EnsurePool fails and leaves the pool file.
  unrendered :
      (pools_dir service sock_dir domain version : Text) (td : PoolData) (e : Error) (w : World)
      → render (with_socket env render (socket_path sock_dir domain version) td) ≡ err e
      → ((ensure_pool env render pools_dir service sock_dir domain version td w).1.files
            (other (pool_file_path pools_dir domain))
          ≡ w.files (other (pool_file_path pools_dir domain)))
        × (is_none (ensure_pool env render pools_dir service sock_dir domain version td w).0.failure
            ≡ false)
  unfolding ensure_pool with_content pool_failed is_none
  unrendered pools_dir service sock_dir domain version td e w h =
      elim (Bool-cases (is_empty domain)) [
        | inl d ↦ rw d (refl, refl)
        | inr d ↦
            elim (Bool-cases (
              is_empty pools_dir
              || (is_empty service || (is_empty sock_dir || is_empty version)))) [
                | inl d' ↦ rw (d, d') (refl, refl)
                | inr d' ↦
                    rw (d, d', h)
                      (log_dirs-files td (other (pool_file_path pools_dir domain)) w, refl)
              ]
      ]

  -- Whatever fails, the pool file holds the rendered content if EnsurePool says that the file changed or
  -- returns no error, and what it held before otherwise; where the template does not render for the pool
  -- with its socket, EnsurePool returns an error and the file is what it was.
  pub ensure_pool-file :
      (pools_dir service sock_dir domain version : Text) (td : PoolData) (w : World)
      → ((ensure_pool env render pools_dir service sock_dir domain version td w).1.files
            (other (pool_file_path pools_dir domain))
          ≡ file_after
              (render (record td { socket = socket_path sock_dir domain version }))
              (w.files (other (pool_file_path pools_dir domain)))
              (ensure_pool env render pools_dir service sock_dir domain version td w).0)
        × ((is_ok (render (record td { socket = socket_path sock_dir domain version }))
              || not (
                  is_none
                    (ensure_pool env render pools_dir service sock_dir domain version td
                      w).0.failure))
            ≡ true)
  unfolding with_socket
  ensure_pool-file pools_dir service sock_dir domain version td w =
      elim (Result-cases (render (record td { socket = socket_path sock_dir domain version }))) [
        | inl (content, e) ↦
            rw e
              (ensure_pool-content pools_dir service sock_dir domain version td content w e, refl)
        | inr (e', e) ↦
            let (same, fails) = unrendered pools_dir service sock_dir domain version td e' w e in
            rw (e, fails) (same, refl)
      ]
