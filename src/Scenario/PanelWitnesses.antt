-- ===== src/Scenario/PanelWitnesses.antt =====
-- The theorems on the requests to the panel, at requests of a reseller.
use ngm.Base.{◌≡◌, refl, true, [], ◌∷◌, some, return, arith}
use ngm.Text.{text, text_eq, trim_space, to_lower, is_empty}
use ngm.Store.PanelUsers.{get_panel_user_by_username}
use ngm.Store.Db.PanelUsers.{panel_user_with_id}
use ngm.Store.Db.Sites.{site_of_domain, scan_site}
use ngm.Store.Db.Users.{user_with_id}
use ngm.Base.Dict.{lookup}
use ngm.Web.Login.{method_post}
use ngm.Web.Access.{
  can_manage_panel_user, site_visible_to_session, site_owner, owner_visible, panel_user_of, is_id,
}
use ngm.Web.Forms.{Form, form_value, value_or_empty}
use ngm.Web.Users.{
  UserHost, handle_user_edit, handle_user_suspend, handle_user_enable, handle_user_delete,
}
use ngm.Web.Users.Laws.{OneRow, user_requests-spare}
use ngm.Web.Sites.{
  posted_new, posted_edit, handle_site_edit, handle_site_disable, handle_site_enable,
  handle_site_delete, field,
}
use ngm.Web.Sites.Laws.{Refused, hidden_site-Refused}
use ngm.Web.Sites.Knobs.{PlainAdd, PlainEdit, forms-Plain}
use ngm.Scenario.Panel.{eve, panel_user, reseller}
use ngm.Scenario.Tables.{no_fault, tables, panel, admin_role, site_host}

abbrev user_host : UserHost
user_host = record {
  fault = no_fault;
  home_root = b'/' ∷ [];
  create_system_user = λ user home. return tt;
  set_system_password = λ user password. return tt;
  suspend_system_user = λ user. return tt;
  unsuspend_system_user = λ user. return tt;
  delete_system_user = λ user. return tt;
}

-- Eve is named, who is an administrator here, and a domain that she owns.
abbrev request : Form
unfolding text
request = record {
  method = method_post;
  form =
      (text "username", eve)
      ∷ (text "domain", b'a' ∷ [])
      ∷ (text "clientmax", b'3' ∷ b'2' ∷ b'M' ∷ [])
      ∷ [];
  query = [];
  hx = true;
}

tables-OneRow : OneRow tables
unfolding get_panel_user_by_username panel_user_with_id
tables-OneRow name u h = ground arith

user_requests-spare_example :
    (panel_user_with_id 1 (handle_user_edit user_host reseller request panel).1.db.panel_users
      ≡ some (panel_user 1 admin_role 0))
    × (panel_user_with_id 1 (handle_user_suspend user_host reseller request panel).1.db.panel_users
        ≡ some (panel_user 1 admin_role 0))
    × (panel_user_with_id 1 (handle_user_enable user_host reseller request panel).1.db.panel_users
        ≡ some (panel_user 1 admin_role 0))
    × (panel_user_with_id 1 (handle_user_delete user_host reseller request panel).1.db.panel_users
        ≡ some (panel_user 1 admin_role 0))
unfolding panel_user_with_id can_manage_panel_user text text_eq
user_requests-spare_example =
    user_requests-spare user_host reseller request panel 1 (panel_user 1 admin_role 0) tables-OneRow
      refl refl

-- The owner of the site is under the reseller 7, and it is the reseller 8 who asks.
hidden_site-Refused_example :
    Refused site_host
      (record reseller { user_id = 8 })
      (handle_site_edit site_host (record reseller { user_id = 8 }) request)
      panel
    × Refused site_host
        (record reseller { user_id = 8 })
        (handle_site_disable site_host (record reseller { user_id = 8 }) request)
        panel
    × Refused site_host
        (record reseller { user_id = 8 })
        (handle_site_enable site_host (record reseller { user_id = 8 }) request)
        panel
    × Refused site_host
        (record reseller { user_id = 8 })
        (handle_site_delete site_host (record reseller { user_id = 8 }) request)
        panel
unfolding request site_visible_to_session site_owner panel_user_of owner_visible text text_eq field
    form_value value_or_empty lookup trim_space to_lower is_empty site_of_domain user_with_id
    get_panel_user_by_username scan_site is_id
hidden_site-Refused_example =
    hidden_site-Refused site_host (record reseller { user_id = 8 }) request panel refl refl

forms-Plain_example : PlainAdd (posted_new request) × PlainEdit (posted_edit request)
forms-Plain_example = forms-Plain request
