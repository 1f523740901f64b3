-- ===== src/Nginx.antt =====
-- internal/nginx/types.go and internal/nginx/manager.go: the data of a site's template, and the
-- manager that stages, publishes, removes and reloads. What it prints is left out.
pub mod Control
pub mod Render
pub mod Publish
pub mod Backup
use ngm.Base.{
  ℕ, ◌≡◌, Bool, true, false, ◌&&◌, ◌||◌, List, [], ◌∷◌, ◌++◌, Option, none, some, if◌then◌else◌,
  Error, Result, ok, err, M, errorf, wrap, wrapping, return, fail, try, ◌>>=◌, ◌>>◌,
}
use ngm.Text.{Text, text, text_eq, is_empty, trim_space, to_lower}
use ngm.Names.{make_upstream_key}
use ngm.Os.Paths.{FilePath, live, staged, backup}
use ngm.Os.{Env, Io, World, call, read_file, stat, remove, write_file_atomic}

pub record CacheCfg : Type 0 where
  pub enabled : Bool
  pub zone : Text
  pub ttl200 : Text

pub record FastCgiCfg : Type 0 where
  pub pass : Text
  pub cache : CacheCfg
  pub time_read : Text
  pub time_send : Text

pub record UpstreamTarget : Type 0 where
  pub addr : Text
  pub weight : ℕ
  pub is_backup : Bool
  pub enabled : Bool

pub record ProxyCfg : Type 0 where
  pub lb : Text
  pub targets : List UpstreamTarget
  pub websockets : Bool
  pub pass_host : Bool
  pub time_connect : Text
  pub time_read : Text
  pub time_send : Text
  pub microcache : CacheCfg
  pub static_cache : CacheCfg

pub record SiteTemplateData : Type 0 where
  pub domain : Text
  pub mode : Text
  pub webroot : Text
  pub acme_webroot : Text
  pub enable_http3 : Bool
  pub tls_cert : Text
  pub tls_key : Text
  pub front_controller : Bool
  pub client_max_body_size : Text
  pub access_log : Text
  pub error_log : Text
  pub php : FastCgiCfg
  pub proxy : ProxyCfg
  pub upstream_key : Text

pub record Manager : Type 0 where
  pub root : Text
  pub bin : Text
  pub main_conf : Text
  pub sites_dir : Text
  pub stage_dir : Text
  pub backup_dir : Text
  pub reload_mode : Text
  pub service_name : Text

unfoldable pub new_manager : Text → Text → Text → Text → Text → Text → Manager
new_manager root bin main_conf sites_dir stage_dir backup_dir = record {
  root = root;
  bin = bin;
  main_conf = main_conf;
  sites_dir = sites_dir;
  stage_dir = stage_dir;
  backup_dir = backup_dir;
  reload_mode = text "signal";
  service_name = text "nginx";
}

abbrev pub or_default : Text → Text → Text
or_default s d = if is_empty s then d else s

unfoldable pub set_control_mode : Manager → Text → Text → Manager
set_control_mode m mode service_name = record m {
  reload_mode = or_default (to_lower (trim_space mode)) (text "signal");
  service_name = if is_empty (trim_space service_name) then text "nginx" else service_name;
}

module _ (env : Env) where
  unfoldable pub remove_found : Result (Unit {0}) → Text → Io (Unit {0})
  remove_found (err e) domain =
      if e.not_exist
      then return tt
      else fail (wrap (text "stat live " ++ env.path_text (live domain)) e)
  remove_found (ok u) domain = do
    old ← wrapping (text "read live " ++ env.path_text (live domain)) (read_file env (live domain))
    wrapping (text "write backup " ++ env.path_text (backup domain))
        (write_file_atomic env (backup domain) old)
    wrapping (text "remove live " ++ env.path_text (live domain)) (remove env (live domain))

  unfoldable pub remove_live_site : Text → Io (Unit {0})
  unfolding remove_found
  remove_live_site domain = do st ← try (stat env (live domain)); remove_found st domain

  unfoldable pub same_content : Result Text → Text → Bool
  same_content (err e) content = false
  same_content (ok current) content = text_eq current content

  -- The backup of the current live file, if there is one.
  unfoldable pub backup_found : Result (Unit {0}) → Text → Io (Unit {0})
  backup_found (err e) domain = return tt
  backup_found (ok u) domain = do
    old ← wrapping (text "read live " ++ env.path_text (live domain)) (read_file env (live domain))
    wrapping (text "write backup " ++ env.path_text (backup domain))
        (write_file_atomic env (backup domain) old)

  unfoldable pub replace_live : Text → Text → Io Bool
  unfolding backup_found
  replace_live domain content = do
    there ← try (stat env (live domain))
    backup_found there domain
    wrapping (text "publish " ++ env.path_text (live domain))
        (write_file_atomic env (live domain) content)
    return true

  unfoldable pub publish : Text → Io Bool
  unfolding same_content
  publish domain = if is_empty domain then fail (errorf (text "domain is required")) else do
    content ←
        wrapping (text "read staging " ++ env.path_text (staged domain))
          (read_file env (staged domain))
    current ← try (read_file env (live domain))
    if same_content current content then return false else replace_live domain content
