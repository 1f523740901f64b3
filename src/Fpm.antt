-- ===== src/Fpm.antt =====
-- internal/fpm: the pool of a site, written and reloaded when it changes. The embedded template is a
-- parameter; a number of the pool is an integer as the store has it. What systemctl prints is left
-- out of its error.
pub mod Laws
pub mod Frame
use ngm.Base.{
  Bool, true, false, ◌||◌, List, [], ◌∷◌, ◌++◌, Option, none, some, Error, Result, ok, err, errorf,
  wrap, if◌then◌else◌, map, return, ◌>>◌, not,
}
use ngm.Base.Sort.{sort}
use ngm.Base.Dict.{lookup}
use ngm.Text.{Text, text, text_eq, is_empty, less}
use ngm.Text.Place.{dir}
use ngm.Os.Paths.{FilePath, other}
use ngm.Os.{Env, Io, World, tick, read_file, mkdir_all, write_file_atomic}
use ngm.Names.{socket_path, pool_file_path}
use ngm.Store.{ℤ}

pub record PoolData : Type 0 where
  pub pool_name : Text
  pub run_user : Text
  pub run_group : Text
  pub socket : Text
  pub listen_owner : Text
  pub listen_group : Text
  pub max_children : ℤ
  pub idle_timeout : Text
  pub max_requests : ℤ
  pub request_terminate_timeout : Text
  pub slowlog_timeout : Text
  pub slowlog_path : Text
  pub error_log : Text
  pub php_admin_values : List (Text × Text)
  pub php_values : List (Text × Text)

unfoldable pub pairs_of : List Text → List (Text × Text) → List (Text × Text)
pairs_of [] m = []
pairs_of (k ∷ ks) m = pair_of k (lookup text_eq k m) ∷ pairs_of ks m
  where
    pair_of : Text → Option Text → Text × Text
    pair_of k none = (k, [])
    pair_of k (some v) = (k, v)

-- The entries of a map in the order of the keys, as the template lists them.
unfoldable pub sorted_pairs : List (Text × Text) → List (Text × Text)
sorted_pairs m = pairs_of (sort less (map (λ (kv : Text × Text). kv.0) m)) m

-- The results of `EnsurePool`: the socket, whether the file changed, and the error.
pub record PoolAnswer : Type 0 where
  pub socket : Text
  pub changed : Bool
  pub failure : Option Error

-- `render` is `(*PoolManager).Render` with the embedded template.
module _ (env : Env) (render : PoolData → Result Text) where
  unfoldable pub reload_service : Text → Io (Unit {0})
  reload_service service w =
      let res = env.run w.clock (text "systemctl" ∷ text "reload" ∷ service ∷ []) w.files in
      elim res.failure [
        | none ↦ (ok tt, tick w)
        | some e ↦
            (err (wrap (text "systemctl reload " ++ (service ++ text " failed: ")) e), tick w)
      ]

  unfoldable pub make_log_dir : Text → Io (Unit {0})
  make_log_dir path = if is_empty path then return tt else mkdir_all env (dir path)

  unfoldable pub write_pool_file_atomic : Text → Text → Io (Unit {0})
  write_pool_file_atomic path content = do
    mkdir_all env (dir path)
    write_file_atomic env (other path) content

  unfoldable pub pool_failed : Bool → Error → PoolAnswer
  pool_failed changed e = record { socket = []; changed = changed; failure = some e }

  unfoldable pub pool_reloaded : Text → Result (Unit {0}) × World → PoolAnswer × World
  pool_reloaded socket (ok u, w) = (record { socket = socket; changed = true; failure = none }, w)
  pool_reloaded socket (err e, w) = (pool_failed true e, w)

  unfoldable pub pool_written : Text → Text → Text → Result (Unit {0}) × World → PoolAnswer × World
  pool_written path service socket (ok u, w) = pool_reloaded socket (reload_service service w)
  pool_written path service socket (err e, w) =
      (pool_failed false (wrap (text "write pool " ++ (path ++ text ": ")) e), w)

  unfoldable pub same_as : Text → Result Text → Bool
  same_as content (ok old) = text_eq old content
  same_as content (err e) = false

  -- A file that cannot be read counts as one that changes.
  unfoldable pub compared : Text → Text → Text → Text → Result Text × World → PoolAnswer × World
  compared path service socket content (old, w) =
      if same_as content old
      then (record { socket = socket; changed = false; failure = none }, w)
      else pool_written path service socket (write_pool_file_atomic path content w)

  unfoldable pub with_content : Text → Text → Text → Result Text → World → PoolAnswer × World
  with_content path service socket (err e) w = (pool_failed false e, w)
  with_content path service socket (ok content) w =
      compared path service socket content
        (read_file env (other path) (mkdir_all env (dir path) w).1)

  unfoldable pub with_socket : Text → PoolData → PoolData
  with_socket socket td = record td { socket = socket }

  unfoldable pub ensure_pool :
      Text → Text → Text → Text → Text → PoolData → World → PoolAnswer × World
  ensure_pool pools_dir service sock_dir domain version td w =
      if is_empty domain
      then (pool_failed false (errorf (text "domain required")), w)
      else if is_empty pools_dir || (is_empty service || (is_empty sock_dir || is_empty version))
      then (pool_failed false (errorf (text "poolsDir/service/sockDir/phpVersion required")), w)
      else with_content (pool_file_path pools_dir domain) service
          (socket_path sock_dir domain version)
          (render (with_socket (socket_path sock_dir domain version) td))
          (make_log_dir td.slowlog_path (make_log_dir td.error_log w).1).1
