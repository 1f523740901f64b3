-- ===== src/Scenario/StoreWitnesses.antt =====
-- The theorems on the store and on `SiteAdd`, each at a concrete database.
use ngm.Base.{
  [], ok, ◌≡◌, refl, true, ◌&&◌, none, some, is_ok, if◌then◌else◌, ◌>>=◌, ◌>>◌, return, fail, try,
}
use ngm.Text.{
  text_eq, trim_space, is_empty, text, has_suffix, contains, trim_left, trim_right, is_space,
  to_lower, lower,
}
use ngm.Store.Db.Sites.{
  site_of_domain, upsert_site, delete_site_by_domain, scan_site, with_mode, get_site_by_domain,
  put_site, new_row, delete_found, delete_rows, or_roll_back, count_root_domains_by_user_id,
  filter_sites, is_root_site,
}
use ngm.Store.Db.Sites.Laws.{IsKeyed, keyed, has_domain, has_id}
use ngm.Store.Db.Sites.Upsert.{settings_of}
use ngm.Store.Db.Sites.Written.{wanted, upsert_site-settings, upsert_site-IsKeyed}
use ngm.Store.Db.Sites.Delete.{delete_site_by_domain-lookup}
use ngm.Store.Db.Packages.{delete_package, get_effective_limits, package_with_id}
use ngm.Store.Db.Packages.Laws.{assigned, delete_package-assigned, is_there}
use ngm.Sites.Checks.{
  prepare, check_request, is_mode, text_or, label_of, found_site, site_dns_input_from_parts,
  web_group, limits_result, panel_user_result, resolve_user_limits_by_username, parent_label,
  enforce_max_limit, check_limits, provision_site, is_new, site_row as row_of,
}
use ngm.Sites.Add.{site_add, ensure_dns, compensate, with_dns, add_row}
use ngm.Sites.Add.Laws.{site_add-lookup}
use ngm.Scenario.{site_a, site_b, site_row}
use ngm.Scenario.Tables.{admin_role, no_fault, second_fails, tables, site_host, panel, add_request}
use ngm.Sites.{
  is_likely_fqdn, all_labels, is_domain_label, label_rest, is_alnum, validate_parent_domain,
  within_limit, php_version_allowed, derive_default_webroot, normalize_parent, check_parent,
}
use ngm.Sites.Panel.{on_db, on_row, on_files, lift, when}
use ngm.Store.{unlimited_limits, limits_of}
use ngm.Store.PanelUsers.{get_panel_user_by_username}
use ngm.Store.Db.{exec, to_result, query, query_row, of_option}
use ngm.Store.Db.Users.{
  ensure_user, put_user, user_named, set_home, get_user_by_username, row_result,
}
use ngm.Apply.{normalize_domain}
use ngm.Text.Place.{join}
use ngm.Store.Db.PanelUsers.{create_panel_user, create_panel_user-taken}
use ngm.Scenario.Panel.{eve, panel_user}

upsert_site-settings_example :
    settings_of (site_of_domain site_b (upsert_site no_fault (site_row site_b true) tables).1.sites)
    ≡ (if text_eq site_b site_b
        then some (wanted (site_row site_b true))
        else settings_of (site_of_domain site_b tables.sites))
unfolding upsert_site is_empty ◌>>◌ exec to_result get_site_by_domain query_row of_option
    site_of_domain put_site text_eq new_row with_mode
upsert_site-settings_example =
    upsert_site-settings no_fault (site_row site_b true) site_b tables refl

upsert_site-IsKeyed_example : IsKeyed (upsert_site second_fails (site_row site_b true) tables).1
unfolding keyed has_domain has_id
upsert_site-IsKeyed_example = upsert_site-IsKeyed second_fails (site_row site_b true) tables refl

delete_site_by_domain-lookup_example :
    site_of_domain site_a (delete_site_by_domain second_fails site_a tables).1.sites ≡ (
      if is_ok (delete_site_by_domain second_fails site_a tables).0
        && text_eq (trim_space site_a) site_a
      then none
      else site_of_domain site_a tables.sites)
unfolding keyed has_domain has_id
delete_site_by_domain-lookup_example =
    delete_site_by_domain-lookup second_fails site_a site_a tables refl

delete_package-assigned_example :
    assigned
      (delete_package no_fault 1 tables).1.packages
      (delete_package no_fault 1 tables).1.user_packages
    ≡ true
unfolding assigned is_there package_with_id
delete_package-assigned_example = delete_package-assigned no_fault 1 tables refl

site_add-lookup_example :
    site_of_domain site_a (site_add site_host add_request panel).1.db.sites
    ≡ site_of_domain site_a panel.db.sites
unfolding keyed has_domain has_id text_eq site_add prepare check_request is_mode text_or label_of
    found_site site_dns_input_from_parts web_group limits_result panel_user_result
    resolve_user_limits_by_username parent_label enforce_max_limit check_limits provision_site
    is_new row_of ensure_dns compensate with_dns add_row is_likely_fqdn all_labels is_domain_label
    label_rest is_alnum validate_parent_domain within_limit php_version_allowed
    derive_default_webroot normalize_parent check_parent ◌>>=◌ ◌>>◌ return fail try is_empty text
    has_suffix contains trim_space trim_left trim_right is_space to_lower lower on_db on_row
    on_files lift when unlimited_limits limits_of get_panel_user_by_username exec to_result query
    query_row of_option ensure_user put_user user_named set_home get_user_by_username row_result
    get_effective_limits site_of_domain get_site_by_domain put_site new_row with_mode upsert_site
    delete_site_by_domain delete_found delete_rows or_roll_back count_root_domains_by_user_id
    filter_sites is_root_site scan_site normalize_domain join
site_add-lookup_example =
    site_add-lookup site_host (λ n. refl) add_request site_a panel refl refl refl

create_panel_user-taken_example :
    (create_panel_user no_fault eve site_b [] true tables).0
    ≡ ok (record (panel_user 1 admin_role 0) {
      password_hash = site_b;
      role = text "admin";
      enabled = true;
      updated_at = tables.clock;
    })
unfolding get_panel_user_by_username text_eq trim_space trim_left trim_right is_space is_empty
create_panel_user-taken_example =
    create_panel_user-taken no_fault (λ n. refl) eve site_b [] true (panel_user 1 admin_role 0)
      tables refl
