-- ===== src/Fpm/Frame.antt =====
-- Which files `EnsurePool` of internal/fpm/ensure.go writes, whatever fails.
use ngm.Base.{◌≡◌, refl, ap, ◌∙◌, false, ◌||◌, Result, ok, err, Bool-cases, inl, inr}
use ngm.Text.{Text, is_empty}
use ngm.Text.Place.{dir}
use ngm.Os.Paths.{FilePath, other, path_eq, is_temp}
use ngm.Os.{Env, World, read_file, mkdir_all}
use ngm.Os.Frame.{Keeps, mkdir_all-Keeps, read_file-Keeps, write-Keeps, >>-Keeps}
use ngm.Names.{socket_path, pool_file_path}
use ngm.Fpm.{
  PoolData, ensure_pool, with_content, with_socket, compared, same_as, pool_written, pool_reloaded,
  reload_service, write_pool_file_atomic,
}
use ngm.Fpm.Laws.{mkdir_all-files, log_dirs-files, reload_service-files}

module _ (env : Env) (render : PoolData → Result Text) (q : FilePath)
    (fixed : is_temp q ≡ false) where
  module _ (path : Text) (elsewhere : path_eq (other path) q ≡ false) where
    write_pool-Keeps : (content : Text) → Keeps q (write_pool_file_atomic env render path content)
    unfolding write_pool_file_atomic
    write_pool-Keeps content =
        >>-Keeps (mkdir_all-Keeps env {q = q} (dir path))
          (write-Keeps env (other path) content fixed elsewhere)

    pool_reloaded-files :
        (socket : Text) (y : Result (Unit {0}) × World)
        → (pool_reloaded env render socket y).1.files q ≡ y.1.files q
    unfolding pool_reloaded
    pool_reloaded-files socket (ok u, w) = refl
    pool_reloaded-files socket (err e, w) = refl

    pool_written-files :
        (service socket : Text) (x : Result (Unit {0}) × World)
        → (pool_written env render path service socket x).1.files q ≡ x.1.files q
    unfolding pool_written
    pool_written-files service socket (err e, w) = refl
    pool_written-files service socket (ok u, w) =
        pool_reloaded-files socket (reload_service env render service w)
        ∙ ap (λ f. f q) (reload_service-files env render service w)

    compared-files :
        (service socket content : Text) (r : Result Text) (w : World)
        → (compared env render path service socket content (r, w)).1.files q ≡ w.files q
    unfolding compared
    compared-files service socket content r w = elim (Bool-cases (same_as env render content r)) [
      | inl e ↦ rw e refl
      | inr e ↦ rw e (
          pool_written-files service socket (write_pool_file_atomic env render path content w)
          ∙ (write_pool-Keeps content).kept w)
    ]

    with_content-files :
        (service socket : Text) (r : Result Text) (w : World)
        → (with_content env render path service socket r w).1.files q ≡ w.files q
    unfolding with_content
    with_content-files service socket (err e) w = refl
    with_content-files service socket (ok content) w =
        let w1 : World = (mkdir_all env (dir path) w).1 in
        let x : Result Text × World = read_file env (other path) w1 in
        compared-files service socket content x.0 x.1
        ∙ (read_file-Keeps env (other path)).kept w1
        ∙ mkdir_all-files env render (dir path) q w

  -- `EnsurePool` writes no file but the pool file and temporary ones.
  pub ensure_pool-files :
      (pools_dir service sock_dir domain version : Text) (td : PoolData) (w : World)
      → path_eq (other (pool_file_path pools_dir domain)) q ≡ false
      → (ensure_pool env render pools_dir service sock_dir domain version td w).1.files q
        ≡ w.files q
  unfolding ensure_pool
  ensure_pool-files pools_dir service sock_dir domain version td w elsewhere =
      elim (Bool-cases (is_empty domain)) [
        | inl e ↦ rw e refl
        | inr e ↦
            elim (Bool-cases (
              is_empty pools_dir
              || (is_empty service || (is_empty sock_dir || is_empty version)))) [
                | inl e' ↦ rw (e, e') refl
                | inr e' ↦
                    rw (e, e')
                      (with_content-files (pool_file_path pools_dir domain) elsewhere service
                          (socket_path sock_dir domain version)
                          (render (with_socket env render (socket_path sock_dir domain version) td))
                          _
                        ∙ log_dirs-files env render td q w)
              ]
      ]
