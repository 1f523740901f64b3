-- ===== src/Template/Pool.antt =====
-- The PHP part of `buildTemplateData` of internal/app/template.go: the pool of the site's owner.
use ngm.Base.{
  ℕ, [], ◌++◌, Option, none, some, Result, ok, err, errorf, wrap, if◌then◌else◌, fail, try, ◌>>=◌,
  map, ◌==◌,
}
use ngm.Base.Dict.{lookup}
use ngm.Text.{Text, text, text_eq, is_empty}
use ngm.Text.Place.{join, dir}
use ngm.Os.Paths.{other}
use ngm.Os.{Env, Io, World, read_file}
use ngm.Config.{Config, PhpFpmVersion}
use ngm.Names.{socket_path}
use ngm.Fpm.{PoolData, PoolAnswer, ensure_pool}
use ngm.Ini.{Overrides, parse_php_ini_overrides, infer_user_from_webroot}
use ngm.Store.{Site, PanelUser, UserLimits, ℤ, pos, negsuc}

-- What it reads of the store. An error stands for every error.
pub record PoolStore (State : Type 0) : Type 0 where
  pub get_panel_user_by_username : Text → State → Result PanelUser
  pub get_effective_limits : ℕ → Text → State → Result UserLimits

-- The host, the configuration and the template of a pool file.
pub record SitePools : Type 0 where
  pub env : Env
  pub cfg : Config
  pub render : PoolData → Result Text

-- `strings.ReplaceAll(domain, ".", "_")`
unfoldable pub dots_to_underscores : Text → Text
dots_to_underscores s = map (λ c. if c == b'.' then b'_' else c) s

-- -1 is no limit, and the pool keeps its 10.
unfoldable pub children_of : Result UserLimits → ℤ
children_of (err e) = pos 10
children_of (ok limits) = unless_unlimited limits.max_php_workers
  where
    unless_unlimited : ℤ → ℤ
    unless_unlimited (pos n) = pos n
    unless_unlimited (negsuc ℕ.zero) = pos 10
    unless_unlimited (negsuc (ℕ.suc n)) = negsuc (ℕ.suc n)

module _ {State : Type 0} (store : PoolStore State) where
  unfoldable pub children_of_owner : Result PanelUser → State → ℤ
  children_of_owner (err e) db = pos 10
  children_of_owner (ok u) db = children_of (store.get_effective_limits u.id u.role db)

  unfoldable pub max_children : Text → State → ℤ
  max_children user db = children_of_owner (store.get_panel_user_by_username user db) db

unfoldable pub overrides_of : Result Text → Overrides
overrides_of (ok b) = parse_php_ini_overrides b
overrides_of (err e) = record { admin = []; normal = []; warnings = [] }

-- The pool without its overrides.
unfoldable pub pool_data : Site → Text → Text → Text → Text → ℤ → Overrides → PoolData
pool_data s domain user web_group socket children o = record {
  pool_name = text "ngm_" ++ dots_to_underscores domain;
  run_user = user;
  run_group = user;
  socket = socket;
  listen_owner = user;
  listen_group = if is_empty web_group then text "www-data" else web_group;
  max_children = children;
  idle_timeout = text "10s";
  max_requests = pos 500;
  request_terminate_timeout = text "60s";
  slowlog_timeout = text "5s";
  slowlog_path = join (join (dir s.webroot) (text "logs")) (text "php-fpm.slow.log");
  error_log = join (join (dir s.webroot) (text "logs")) (text "php-fpm.error.log");
  php_admin_values = o.admin;
  php_values = o.normal;
}

unfoldable pub overrides_path : Site → Text
overrides_path s = join (join (dir s.webroot) (text "php")) (text "php.ini")

-- The address that nginx passes requests to, unless the pool failed.
unfoldable pub pass_of : Text → PoolAnswer × World → Result Text × World
pass_of socket (a, w) = elim a.failure [
  | none ↦ (ok (text "unix:" ++ socket), w)
  | some e ↦ (err (wrap (text "ensure fpm pool: ") e), w)
]

module _ (h : SitePools) {State : Type 0} (store : PoolStore State) where
  unfoldable pub pool_of : Site → Text → PhpFpmVersion → Text → State → Result Text → PoolData
  pool_of s domain ver user db ini =
      pool_data s domain user h.cfg.hosting.web_group
        (socket_path ver.sock_dir domain s.php_version) (max_children store user db)
        (overrides_of ini)

  unfoldable pub with_pool : Site → Text → PhpFpmVersion → Text → State → Io Text
  with_pool s domain ver user db = do
    ini ← try (read_file h.env (other (overrides_path s)))
    (λ w. pass_of (socket_path ver.sock_dir domain s.php_version) (
        ensure_pool h.env h.render ver.pools_dir ver.service ver.sock_dir domain s.php_version
          (pool_of s domain ver user db ini) w))

  unfoldable pub with_user : Site → Text → PhpFpmVersion → Option Text → State → Io Text
  with_user s domain ver none db = fail (errorf (text "cannot infer site user from webroot"))
  with_user s domain ver (some user) db = with_pool s domain ver user db

  unfoldable pub with_version : Site → Text → Option PhpFpmVersion → State → Io Text
  with_version s domain none db = fail (errorf (text "unknown php version"))
  with_version s domain (some ver) db =
      with_user s domain ver (infer_user_from_webroot h.cfg.hosting.home_root s.webroot) db

  unfoldable pub php_pass : Site → Text → State → Io Text
  php_pass s domain db =
      with_version s domain (lookup text_eq s.php_version h.cfg.phpfpm.versions) db
