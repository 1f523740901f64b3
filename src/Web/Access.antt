-- ===== src/Web/Access.antt =====
-- `requireRole`, `siteVisibleToSession` and `canManagePanelUser` of internal/web/server.go.
pub mod Laws
use ngm.Base.{
  ℕ, Bool, true, false, ◌&&◌, ◌||◌, List, [], ◌∷◌, Option, none, some, ◌==◌, if◌then◌else◌,
}
use ngm.Text.{Text, text, text_eq, trim_space}
use ngm.Store.{User, Site, PanelUser}
use ngm.Store.PanelUsers.{get_panel_user_by_username}
use ngm.Web.Session.{Session}

-- What `requireRole` does with a request.
pub data Gate : Type 0 where
  to_login : Gate
  passed : Gate
  forbidden : Gate

unfoldable pub has_role : Text → List Text → Bool
has_role role [] = false
has_role role (r ∷ rs) = text_eq role r || has_role role rs

unfoldable pub require_role : List Text → Option Session → Gate
require_role roles none = to_login
require_role roles (some sess) = if has_role sess.role roles then passed else forbidden

-- `id != nil && *id == n`
unfoldable pub is_id : Option ℕ → ℕ → Bool
is_id none n = false
is_id (some id) n = id == n

unfoldable pub can_manage_panel_user : Session → PanelUser → Bool
can_manage_panel_user sess target =
    text_eq sess.role (text "admin")
    || (text_eq sess.role (text "reseller")
        && (text_eq target.role (text "user") && is_id target.reseller_id sess.user_id))

-- The look-ups of the core and of the store.
pub record Directory : Type 0 where
  pub site_get : Text → Option Site
  pub get_user_by_id : ℕ → Option User
  pub users : List PanelUser

unfoldable pub panel_user_of : Directory → Option User → Option PanelUser
panel_user_of dir none = none
panel_user_of dir (some u) = get_panel_user_by_username (trim_space u.username) dir.users

unfoldable pub site_owner : Directory → Option Site → Option PanelUser
site_owner dir none = none
site_owner dir (some site) = panel_user_of dir (dir.get_user_by_id site.user_id)

unfoldable pub owner_visible : Session → Option PanelUser → Bool
owner_visible sess none = false
owner_visible sess (some pu) =
    if text_eq sess.role (text "user")
    then pu.id == sess.user_id
    else is_id pu.reseller_id sess.user_id

unfoldable pub site_visible_to_session : Directory → Session → Text → Bool
site_visible_to_session dir sess domain =
    text_eq sess.role (text "admin") || owner_visible sess (site_owner dir (dir.site_get domain))
