-- ===== src/Scenario/BackupWitnesses.antt =====
-- The theorem on backups, at a reseller who backs up one of its users.
use ngm.Base.{inr, map, ◌≡◌, refl, true, false, [], ◌∷◌, ok, return, try, ◌>>=◌}
use ngm.Base.Dict.{lookup}
use ngm.Base.Sort.{sort, insert}
use ngm.Text.{text, text_eq, trim_space, is_empty, to_lower}
use ngm.Store.PanelUsers.{get_panel_user_by_username}
use ngm.Store.Db.{query, query_row, of_option}
use ngm.Store.Db.PanelUsers.{
  panel_user_named, list_panel_users, get_panel_user_by_id, panel_user_with_id,
}
use ngm.Store.Db.Users.{list_users}
use ngm.Store.Db.Packages.{list_packages, get_user_package, joined, assignment_of}
use ngm.Store.Db.Sites.{list_sites_by_user_id, filter_sites, scan_all, scan_site, nullable}
use ngm.Store.Db.Targets.{list_proxy_targets_by_site_id, targets_of}
use ngm.Web.Login.{method_get, method_post}
use ngm.Web.Session.{Session}
use ngm.Web.Access.{is_id}
use ngm.Web.Forms.{Form, query_value, value_or_empty, parse_bool}
use ngm.Backup.{Manifest, Dump}
use ngm.Backup.Scope.{scope_of, user_scope, panel_by_name, or_else, id_or_zero, is_included}
use ngm.Backup.Build.{
  build_dump, if_scope, dump_scope, panel_dumps, reseller_name, name_of_reseller, panel_dump,
  package_dump_from_store, dump_users, users_of, with_user, user_by_name, or_user, dump_sites,
  target_dumps, targets_or_none, site_dump, dump_package, package_found, manifest_of, user_dump,
}
use ngm.Backup.Build.Laws.{AllOf}
use ngm.Backup.Gate.{
  BackupHost, served, handle_backup, backup_by, backup_of, gate, user_gate, under_gate, is_under,
  pass_if, default_scope, scope_asked, user_asked, options, after_gate, reply_of,
}
use ngm.Backup.Gate.Reach.{IsReached}
use ngm.Backup.Gate.Laws.{handle_backup-AllOf}
use ngm.Backup.Build.Whole.{own_fields, rows_of}
use ngm.Backup.Gate.Whole.{handle_backup-whole}
use mathlib.Core.List.{Perm}
use ngm.Scenario.{site_a, site_row}
use ngm.Scenario.Panel.{eve, panel_user, reseller}
use ngm.Scenario.Tables.{no_fault, tables, package_row, admin_role}

abbrev backup_host : BackupHost
backup_host = record {
  fault = no_fault;
  range_map = λ us. us;
  node_id = b'n' ∷ [];
  driver = b's' ∷ [];
  home_root = b'/' ∷ [];
  certs_root = b'/' ∷ [];
  now = 5;
}

abbrev backup_request : Form
unfolding text
backup_request = record {
  method = method_get;
  form = [];
  query = (text "scope", text "user") ∷ (text "user", eve) ∷ [];
  hx = false;
}

abbrev backed_up : Dump
backed_up = record {
  panel_users = panel_dump (panel_user 1 admin_role 0) [] ∷ [];
  users = record { username = eve; home_dir = b'/' ∷ [] } ∷ [];
  packages = package_dump_from_store package_row ∷ [];
  user_packages = [];
  sites = site_dump eve (site_row site_a true) ∷ [];
  proxy_targets = [];
}

abbrev backup_manifest : Manifest
unfolding text
backup_manifest = record {
  schema_version = 1;
  created_at = 5;
  node_id = b'n' ∷ [];
  scope = text "user";
  driver = b's' ∷ [];
  subject = record { username = eve; user_id = 1; reseller_id = 7 };
  include_certs = false;
}

served_backup :
    (handle_backup backup_host reseller backup_request tables).0
    ≡ ok (served backup_manifest backed_up)
unfolding return try ◌>>=◌ lookup sort insert text text_eq trim_space is_empty to_lower
    get_panel_user_by_username query query_row of_option panel_user_named list_panel_users
    get_panel_user_by_id panel_user_with_id list_users list_packages get_user_package joined
    assignment_of list_sites_by_user_id filter_sites scan_all scan_site nullable
    list_proxy_targets_by_site_id targets_of is_id query_value value_or_empty parse_bool scope_of
    user_scope panel_by_name or_else id_or_zero is_included build_dump if_scope dump_scope
    panel_dumps reseller_name name_of_reseller panel_dump package_dump_from_store dump_users
    users_of with_user user_by_name or_user dump_sites target_dumps targets_or_none site_dump
    dump_package package_found manifest_of user_dump handle_backup backup_by backup_of gate
    user_gate under_gate is_under pass_if scope_asked user_asked options after_gate reply_of
served_backup = refl

handle_backup-AllOf_example :
    AllOf (IsReached reseller tables.panel_users) (backup_manifest, backed_up)
unfolding text text_eq trim_space
handle_backup-AllOf_example =
    handle_backup-AllOf backup_host reseller backup_request tables backup_manifest backed_up
      (λ P us h. h) refl refl ((λ no. cc), tt) served_backup

abbrev admin : Session
unfolding text
admin = record reseller { role = text "admin" }

-- An administrator who names no scope.
abbrev whole_request : Form
whole_request = record { method = method_post; form = []; query = []; hx = false }

handle_backup-whole_example :
    (m : Manifest) × (d : Dump) × ((handle_backup backup_host admin whole_request tables).0
      ≡ ok (served m d))
    × Perm (map own_fields d.panel_users) (rows_of tables.panel_users)
unfolding text text_eq scope_asked default_scope query_value value_or_empty lookup trim_space
    is_empty
handle_backup-whole_example =
    handle_backup-whole backup_host admin whole_request tables (λ n. refl) refl refl (inr refl)
