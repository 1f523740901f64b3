-- ===== src/Scenario/Tables.antt =====
-- A concrete database, and a host whose DNS provider fails.
use ngm.Base.{ℕ, true, false, [], ◌∷◌, Option, none, some, errorf, return, fail}
use ngm.Text.{Text, text}
use ngm.Dns.{Provider}
use ngm.Store.{Package, zero_limits}
use ngm.Store.Db.{Db}
use ngm.Sites.Panel.{Panel, SiteHost, not_ready}
use ngm.Sites.Checks.{SiteAddRequest}
use ngm.Sites.Edit.{SiteEditRequest}
use ngm.Scenario.{broken_nginx, manager, site_a, site_row, world}
use ngm.Scenario.Settings.{settings}
use ngm.Scenario.Panel.{eve, panel_user}

-- No call fails.
abbrev pub no_fault : ℕ → Option Text
no_fault n = none

-- The second call of the database fails.
abbrev pub second_fails : ℕ → Option Text
second_fails n = elim n [ ℕ.suc m ↦ elim m [ ℕ.zero ↦ some (b'!' ∷ []) | _ ↦ none ] | _ ↦ none ]

abbrev pub package_row : Package
package_row = record {
  id = 1;
  name = b'p' ∷ [];
  created_by = none;
  limits = zero_limits;
  created_at = 0;
  updated_at = 0;
}

abbrev pub admin_role : Text
admin_role = b'a' ∷ b'd' ∷ b'm' ∷ b'i' ∷ b'n' ∷ []

abbrev pub tables : Db
tables = record {
  users = record { id = 1; username = eve; home_dir = b'/' ∷ []; created_at = 0 } ∷ [];
  sites = site_row site_a true ∷ [];
  targets = [];
  panel_users = panel_user 1 admin_role 0 ∷ [];
  packages = package_row ∷ [];
  user_packages =
      record { id = 1; user_id = 9; package_id = 1; assigned_by = none; assigned_at = 0 } ∷ [];
  next_user = 2;
  next_site = 2;
  next_target = 1;
  next_package = 2;
  next_user_package = 2;
  next_panel_user = 2;
  clock = 0;
}

abbrev no_name : Provider
no_name = record {
  ensure_root_site = λ in'. fail (errorf (text "no zone"));
  ensure_subdomain_site = λ in'. fail (errorf (text "no zone"));
  delete_root_site = λ in'. return tt;
  delete_subdomain_site = λ in'. return tt;
  get_site_entry = λ in' w. (
    (
      record { fqdn = []; zone = []; kind = []; status = []; record_text = []; zone_file = [] },
      none,
    ),
    w,
  );
}

abbrev pub site_host : SiteHost
site_host = record {
  fault = no_fault;
  env = broken_nginx;
  cfg = record settings {
    hosting = record { home_root = b'/' ∷ b'h' ∷ []; sites_root_name = []; web_group = [] };
  };
  manager = manager;
  dns = some no_name;
  ensure_system_user = λ user home. return tt;
  ensure_site_dirs = λ user home webroot group. return tt;
  chown_path = λ path user group. return tt;
  apply = λ d. return tt;
  cert_issue = λ d p. (not_ready, p);
}

abbrev pub panel : Panel
panel = record { db = tables; world = world }

-- Eve adds the domain n.gr.
abbrev pub add_request : SiteAddRequest
add_request = record {
  user = eve;
  domain = b'n' ∷ b'.' ∷ b'g' ∷ b'r' ∷ [];
  parent_domain = [];
  mode = [];
  php = b'8' ∷ [];
  webroot = [];
  http3 = false;
  provision = true;
  skip_cert = true;
  apply_now = false;
  client_max_body_size = [];
  php_time_read = [];
  php_time_send = [];
  php_ini_overrides = [];
  proxy_targets = [];
}

-- The tables with a row for n.gr.
abbrev pub named_panel : Panel
named_panel = record {
  db = record tables { sites = site_row add_request.domain true ∷ [] };
  world = world;
}

-- An edit of n.gr to a mode that is not known.
abbrev pub edit_request : SiteEditRequest
edit_request = record {
  domain = add_request.domain;
  user = [];
  parent_domain = [];
  parent_domain_set = false;
  mode = b'x' ∷ [];
  php = [];
  webroot = [];
  http3 = none;
  enabled = none;
  client_max_body_size = [];
  php_time_read = [];
  php_time_send = [];
  php_ini_overrides = none;
  apply_now = false;
}
