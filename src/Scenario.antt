-- ===== src/Scenario.antt =====
-- Concrete hosts, stores and files on which the theorems are applied.
mod Witnesses
mod Settings
mod Panel
mod Zones
mod Tables
mod DnsWitnesses
mod StoreWitnesses
mod SiteWitnesses
mod FpmWitnesses
mod TemplateWitnesses
mod PanelWitnesses
mod BackupWitnesses
use ngm.Base.{
  ℕ, ◌≡◌, refl, Bool, true, false, List, [], ◌∷◌, Option, none, some, if◌then◌else◌, Error, Result,
  ok, err, errorf, M,
}
use ngm.Text.{Text, text, text_eq}
use ngm.Os.Paths.{FilePath, live, staged, backup}
use ngm.Os.{Env, World, CmdResult, missing}
use ngm.Os.Frame.{Keeps}
use ngm.Nginx.{SiteTemplateData, Manager, CacheCfg, FastCgiCfg, ProxyCfg}
use ngm.Nginx.Render.{Template}
use ngm.Store.{Site, SiteStore}
use ngm.Apply.{Host, App, ApplyRequest}
use ngm.Apply.One.Frame.{BuildsFor}

-- No file operation fails, and every command fails.
abbrev pub broken_nginx : Env
broken_nginx = record {
  fault = λ n. none;
  short_write = λ n. 0;
  run = λ n argv files. record { stdout = []; stderr = []; failure = some (errorf []) };
  path_text = λ p. [];
  dir_text = λ p. [];
  systemd_host = false;
}

-- The third call fails.
abbrev pub failing_disk : Env
failing_disk = record broken_nginx {
  fault = λ n. elim n [ ℕ.suc m ↦ elim m [ ℕ.suc k ↦ some (b'!' ∷ []) | _ ↦ none ] | _ ↦ none ];
}

abbrev pub manager : Manager
manager = record {
  root = [];
  bin = b'n' ∷ [];
  main_conf = [];
  sites_dir = [];
  stage_dir = [];
  backup_dir = [];
  reload_mode = [];
  service_name = [];
}

abbrev pub site_a : Text
site_a = b'a' ∷ []

abbrev pub site_b : Text
site_b = b'b' ∷ []

abbrev pub old_conf : Text
old_conf = b'o' ∷ b'l' ∷ b'd' ∷ []

abbrev pub new_conf : Text
new_conf = b'n' ∷ b'e' ∷ b'w' ∷ []

-- Site a is live, and a new version of it is staged.
abbrev pub files : FilePath → Option Text
files (live d) = if text_eq d site_a then some old_conf else none
files (staged d) = if text_eq d site_a then some new_conf else none
files _ = none

abbrev pub world : World
world = record { files = files; clock = 0 }

-- Site a was removed, and its backup stayed.
abbrev pub removed_files : FilePath → Option Text
removed_files (backup d) = if text_eq d site_a then some old_conf else none
removed_files _ = none

abbrev no_cache : CacheCfg
no_cache = record { enabled = false; zone = []; ttl200 = [] }

abbrev pub template_data : Text → SiteTemplateData
template_data d = record {
  domain = d;
  mode = [];
  webroot = b'/' ∷ [];
  acme_webroot = b'/' ∷ [];
  enable_http3 = false;
  tls_cert = b'c' ∷ [];
  tls_key = b'k' ∷ [];
  front_controller = true;
  client_max_body_size = [];
  access_log = [];
  error_log = [];
  php = record { pass = []; cache = no_cache; time_read = []; time_send = [] };
  proxy = record {
    lb = [];
    targets = [];
    websockets = false;
    pass_host = false;
    time_connect = [];
    time_read = [];
    time_send = [];
    microcache = no_cache;
    static_cache = no_cache;
  };
  upstream_key = [];
}

abbrev pub site_row : Text → Bool → Site
site_row d on = record {
  id = 1;
  user_id = 1;
  domain = d;
  parent_domain = none;
  mode = [];
  webroot = b'/' ∷ [];
  php_version = [];
  enable_http3 = false;
  enabled = on;
  client_max_body_size = [];
  php_time_read = [];
  php_time_send = [];
  created_at = 0;
  updated_at = 0;
  last_render_hash = [];
  last_applied_at = none;
  last_apply_status = [];
  last_apply_error = [];
}

-- A store that holds enabled sites, by their domains, and records nothing.
abbrev pub listed : SiteStore
listed = record {
  State = List Text;
  list_sites = λ ds. ok (sites_of ds);
  get_site_by_domain = λ d ds. ok (site_row d true);
  update_apply_result = none;
}
  where
    sites_of : List Text → List Site
    sites_of [] = []
    sites_of (d ∷ ds) = site_row d true ∷ sites_of ds

abbrev pub host : Host listed
host = record {
  env = broken_nginx;
  manager = manager;
  template = ok (λ td. ok new_conf);
  test_before_reload = true;
  sha256_hex = λ s. [];
  build_template_data = λ s d db w. (ok (template_data d), w);
}

pub host-BuildsFor : BuildsFor host
host-BuildsFor = record {
  of_domain = λ s d db w td h. cc;
  keeps_live = λ s d db e. record { kept = λ w. refl };
  keeps_backup = λ s d db e. record { kept = λ w. refl };
}

abbrev pub app : App listed
app = record { world = world; db = site_a ∷ site_b ∷ [] }

abbrev pub request : Text → Bool → ℕ → ApplyRequest
request d dry limit = record { domain = d; apply_all = true; dry_run = dry; limit = limit }
