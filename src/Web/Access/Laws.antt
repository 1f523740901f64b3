-- ===== src/Web/Access/Laws.antt =====
-- How the two tests of internal/web/server.go on sites and on their owners agree.
use ngm.Base.{◌≡◌, refl, true, false, some, ◌⊎◌, inl, inr}
use ngm.Text.{Text, text, text_eq}
use ngm.Store.{PanelUser}
use ngm.Web.Session.{Session}
use ngm.Web.Access.{
  Directory, site_owner, owner_visible, site_visible_to_session, can_manage_panel_user,
}

reseller_facts :
    (text_eq (text "reseller") (text "admin") ≡ false)
    × ((text_eq (text "reseller") (text "user") ≡ false)
        × (text_eq (text "reseller") (text "reseller") ≡ true))
unfolding text text_eq
reseller_facts = (refl, (refl, refl))

-- An administrator and a reseller see a site exactly if they manage its owner, for an owner whose role
-- is `user`.
pub site_visible-can_manage :
    (dir : Directory) (sess : Session) (domain : Text) (pu : PanelUser)
    → (text_eq sess.role (text "admin") ≡ true) ⊎ (sess.role ≡ text "reseller")
    → site_owner dir (dir.site_get domain) ≡ some pu
    → text_eq pu.role (text "user") ≡ true
    → site_visible_to_session dir sess domain ≡ can_manage_panel_user sess pu
unfolding site_visible_to_session can_manage_panel_user owner_visible
site_visible-can_manage dir sess domain pu (inl admin) is_owner user = simp (admin) refl
site_visible-can_manage dir sess domain pu (inr reseller) is_owner user =
    simp (reseller, is_owner, user, reseller_facts.0, reseller_facts.1.0, reseller_facts.1.1) refl
