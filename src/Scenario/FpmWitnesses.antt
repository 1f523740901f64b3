-- ===== src/Scenario/FpmWitnesses.antt =====
-- The theorems on pools, at a pool that is new on a host whose service does not reload.
use ngm.Base.{◌||◌, is_ok, not, true, ◌≡◌, [], ◌∷◌, ok, Result}
use ngm.Text.{Text}
use ngm.Text.Place.{dir as dir_of}
use ngm.Os.Paths.{other}
use ngm.Names.{pool_file_path, socket_path}
use ngm.Store.{pos}
use ngm.Fpm.{PoolData, ensure_pool}
use ngm.Fpm.Laws.{file_after, is_none, ensure_pool-file}
use ngm.Scenario.{broken_nginx, site_a, world}

abbrev pool : PoolData
pool = record {
  pool_name = site_a;
  run_user = site_a;
  run_group = site_a;
  socket = [];
  listen_owner = site_a;
  listen_group = site_a;
  max_children = pos 5;
  idle_timeout = [];
  max_requests = pos 500;
  request_terminate_timeout = [];
  slowlog_timeout = [];
  slowlog_path = [];
  error_log = [];
  php_admin_values = [];
  php_values = [];
}

abbrev dir : Text
dir = b'/' ∷ b'p' ∷ []

abbrev render : PoolData → Result Text
render td = ok (b'#' ∷ td.run_user)

ensure_pool-file_example :
    ((ensure_pool broken_nginx render dir dir dir site_a site_a pool world).1.files
        (other (pool_file_path dir site_a))
      ≡ file_after
          (render (record pool { socket = socket_path dir site_a site_a }))
          (world.files (other (pool_file_path dir site_a)))
          (ensure_pool broken_nginx render dir dir dir site_a site_a pool world).0)
    × ((is_ok (render (record pool { socket = socket_path dir site_a site_a }))
          || not (
              is_none
                (ensure_pool broken_nginx render dir dir dir site_a site_a pool world).0.failure))
        ≡ true)
ensure_pool-file_example = ensure_pool-file broken_nginx render dir dir dir site_a site_a pool world
