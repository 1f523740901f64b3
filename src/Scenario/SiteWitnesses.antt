-- ===== src/Scenario/SiteWitnesses.antt =====
-- The theorems on the sites and their overrides, each at a concrete input.
use ngm.Base.{◌≡◌, refl, true, ◌&&◌, none, [], ◌∷◌, is_ok, if◌then◌else◌, ◌>>=◌, ◌>>◌, return, fail}
use ngm.Text.{
  text_eq, trim_space, is_empty, text, has_suffix, contains, trim_left, trim_right, is_space,
  to_lower, lower, split,
}
use ngm.Store.Db.{to_result, query_row, of_option}
use ngm.Store.Db.Users.{get_user_by_id, user_with_id}
use ngm.Store.Db.Sites.{site_of_domain, get_site_by_domain, scan_site}
use ngm.Store.Db.Sites.Laws.{keyed, has_domain, has_id}
use ngm.Apply.{normalize_domain}
use ngm.Sites.{is_likely_fqdn, all_labels, is_domain_label, label_rest, is_alnum}
use ngm.Sites.Panel.{lift, on_row}
use ngm.Sites.Checks.{is_mode}
use ngm.Sites.Delete.{site_delete, site_by_domain}
use ngm.Sites.Delete.Laws.{site_delete-lookup}
use ngm.Sites.Edit.{
  site_edit, edited, edited_domain, new_owner, user_or_zero, known_owner, edited_mode,
}
use ngm.Sites.Edit.Laws.{site_edit-sites}
use ngm.Ini.{parse_php_ini_overrides}
use ngm.Ini.Laws.{safe_overrides, parse_php_ini_overrides-safe}
use ngm.Scenario.{site_a}
use ngm.Scenario.Tables.{site_host, panel, named_panel, edit_request}

site_delete-lookup_example :
    site_of_domain site_a (site_delete site_host site_a panel).1.db.sites ≡ (
      if is_ok (site_delete site_host site_a panel).0 && text_eq (trim_space site_a) site_a
      then none
      else site_of_domain site_a panel.db.sites)
unfolding keyed has_domain has_id
site_delete-lookup_example = site_delete-lookup site_host site_a site_a panel refl

site_edit-sites_example :
    (site_edit site_host edit_request named_panel).1.db.sites ≡ named_panel.db.sites
unfolding site_edit edited edited_domain new_owner user_or_zero known_owner edited_mode
    site_by_domain lift on_row is_mode is_likely_fqdn all_labels is_domain_label label_rest is_alnum
    normalize_domain get_site_by_domain site_of_domain scan_site get_user_by_id user_with_id
    to_result query_row of_option text_eq trim_space is_empty text has_suffix contains trim_left
    trim_right is_space to_lower lower split ◌>>=◌ ◌>>◌ return fail
site_edit-sites_example = site_edit-sites site_host (λ n. refl) edit_request named_panel refl

parse_php_ini_overrides-safe_example :
    safe_overrides (parse_php_ini_overrides (b'a' ∷ b'=' ∷ b'1' ∷ 13 ∷ b'b' ∷ b'=' ∷ b'2' ∷ []))
    ≡ true
parse_php_ini_overrides-safe_example =
    parse_php_ini_overrides-safe (b'a' ∷ b'=' ∷ b'1' ∷ 13 ∷ b'b' ∷ b'=' ∷ b'2' ∷ [])
