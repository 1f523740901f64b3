-- ===== src/Web/Users.antt =====
-- The handlers of internal/web/server.go that make, edit, suspend, enable and delete the users of the
-- panel. The functions of internal/users are arguments; their errors are dropped.
pub mod Frame
pub mod Steps
pub mod Laws
use ngm.Base.{
  ℕ, Bool, true, false, not, ◌&&◌, ◌||◌, List, [], ◌∷◌, ◌++◌, Option, none, some, Error, Result, ok,
  err, ltb, if◌then◌else◌, return, try, ◌>>=◌, ◌>>◌,
}
use ngm.Text.{Text, text, text_eq, is_empty, trim_space}
use ngm.Text.Place.{join}
use ngm.Os.{Io}
use ngm.Store.{PanelUser}
use ngm.Store.Db.{to_result}
use ngm.Store.Db.PanelUsers.{
  panel_user_named, create_panel_user, update_panel_user, delete_panel_user, list_panel_users,
}
use ngm.Store.Db.Packages.{list_packages, assign_package, unassign_package, get_user_package}
use ngm.Sites.Panel.{Panel, Act, on_db, on_row, on_files, lift, when}
use ngm.Web.Session.{Session}
use ngm.Web.Login.{Method, method_get, method_post, method_other}
use ngm.Web.Access.{can_manage_panel_user}
use ngm.Web.Forms.{
  Form, Reply, http_error, page, fragment, redirect, form_value, query_value, parse_bool, parse_id,
  attempt, answer_error, method_not_allowed, forbidden,
}

-- What the handlers call: the database, which call of it fails, and internal/users.
pub record UserHost : Type 0 where
  pub fault : ℕ → Option Text
  pub home_root : Text
  pub create_system_user : Text → Text → Io (Unit {0})
  pub set_system_password : Text → Text → Io (Unit {0})
  pub suspend_system_user : Text → Io (Unit {0})
  pub unsuspend_system_user : Text → Io (Unit {0})
  pub delete_system_user : Text → Io (Unit {0})

-- `target.SystemUser`, or the name of the user where it is blank.
unfoldable pub system_user_of : PanelUser → Text
system_user_of u =
    if is_empty (trim_space u.system_user) then u.username else trim_space u.system_user

unfoldable pub is_user : PanelUser → Bool
is_user u = text_eq u.role (text "user")

module _ (host : UserHost) where
  open host use {fault}

  -- The error is dropped.
  unfoldable pub ignored : {A : Type 0} → Act A → Act (Unit {0})
  ignored m = do try m; return tt

  unfoldable pub panel_user : Text → Act PanelUser
  panel_user name = do row ← on_row (panel_user_named fault name); lift (to_result row)

  -- `usersViewData` reads, and its error is answered. What it reads of the packages has no error.
  unfoldable pub users_table : Act Reply
  users_table =
      attempt (on_db (list_panel_users fault)) (answer_error 500)
        λ items. return (fragment (text "users_table"))

  unfoldable pub table_or_redirect : Form → Text → Act Reply
  table_or_redirect r to = if r.hx then users_table else return (redirect to)

  -- The look-up of the user of a request, and the test that the session may manage it.
  unfoldable pub manageable : Session → Text → (PanelUser → Act Reply) → Act Reply
  manageable sess name next =
      attempt (panel_user name) (λ e. forbidden)
        λ target.
          if not (is_user target) || not (can_manage_panel_user sess target)
          then return forbidden
          else next target

  unfoldable pub with_owner : Session → Form → PanelUser → PanelUser
  with_owner sess r u =
      let rid = parse_id (trim_space (form_value (text "reseller_id") r)) in
      if text_eq sess.role (text "reseller")
      then record u { reseller_id = some sess.user_id; owner_id = some sess.user_id }
      else if ltb 0 rid
      then record u { reseller_id = some rid; owner_id = some rid }
      else u

  unfoldable pub new_panel_row : Session → Form → Text → Bool → PanelUser → PanelUser
  new_panel_row sess r username enabled u =
      with_owner sess r
        (record u { system_user = username; enabled = enabled; created_by = some sess.user_id })

  -- What follows the row of a new user: no error is looked at.
  unfoldable pub provisioned : Session → Form → Text → Text → Bool → PanelUser → Act Reply
  provisioned sess r username password enabled u =
      let pkg = parse_id (trim_space (form_value (text "package_id") r)) in
      do
        ignored (on_files (host.create_system_user username (join host.home_root username)))
        ignored (on_files (host.set_system_password username password))
        when (ltb 0 pkg) (ignored (on_db (assign_package fault u.id pkg sess.user_id)))
        when (not enabled) (ignored (on_files (host.suspend_system_user username)))
        return (redirect (text "/ui/users"))

  unfoldable pub created : Session → Form → Text → Text → Bool → Act Reply
  created sess r username password enabled =
      attempt (on_db (create_panel_user fault username (text "$SHADOW$") (text "user") enabled))
        (λ e. page (text "user_form") e.message)
        λ u.
          attempt (on_db (update_panel_user fault (new_panel_row sess r username enabled u)))
            (answer_error 400) λ row. provisioned sess r username password enabled u

  unfoldable pub post_new : Session → Form → Act Reply
  post_new sess r =
      let username = trim_space (form_value (text "username") r) in
      let password = form_value (text "password") r in
      if is_empty username || is_empty password
      then return (page (text "user_form") (text "username and password are required"))
      else created sess r username password (parse_bool (form_value (text "enabled") r) true)

  unfoldable pub unless_get : Method → Act Reply → Act Reply → Act Reply
  unless_get method_get shown posted = shown
  unless_get method_post shown posted = posted
  unless_get method_other shown posted = posted

  -- The packages and the users of the form are listed before the method is looked at.
  unfoldable pub handle_user_new : Session → Form → Act Reply
  handle_user_new sess r = do
    try (on_db (list_packages fault))
    try (on_db (list_panel_users fault))
    unless_get r.method (return (page (text "user_form") [])) (post_new sess r)

  unfoldable pub repackaged : Session → Form → PanelUser → Act Reply
  repackaged sess r target =
      let pkg = parse_id (trim_space (form_value (text "package_id") r)) in
      do
        (if ltb 0 pkg
            then ignored (on_db (assign_package fault target.id pkg sess.user_id))
            else ignored (on_db (unassign_package fault target.id)))
        return (redirect (text "/ui/users?info=user+updated"))

  unfoldable pub set_suspended : Bool → Text → Act (Unit {0})
  set_suspended true user = ignored (on_files (host.unsuspend_system_user user))
  set_suspended false user = ignored (on_files (host.suspend_system_user user))

  unfoldable pub post_edit : Session → Form → PanelUser → Act Reply
  post_edit sess r old =
      let enabled = parse_bool (form_value (text "enabled") r) true in
      let password = trim_space (form_value (text "password") r) in
      let target : PanelUser = record old { enabled = enabled } in
      do
        when (not (is_empty password))
            (ignored (on_files (host.set_system_password (system_user_of target) password)))
        attempt (on_db (update_panel_user fault target)) (answer_error 400)
            λ row. do set_suspended enabled (system_user_of target); repackaged sess r target

  unfoldable pub edit_form : Session → PanelUser → Act Reply
  edit_form sess target = do
    try (on_db (list_packages fault))
    on_row (get_user_package fault target.id)
    return (page (text "user_form") [])

  unfoldable pub edit_by : Method → Session → Form → PanelUser → Act Reply
  edit_by method_get sess r target = edit_form sess target
  edit_by method_post sess r target = post_edit sess r target
  edit_by method_other sess r target = return method_not_allowed

  unfoldable pub edited_name : Method → Form → Text
  edited_name method_post r = trim_space (form_value (text "username") r)
  edited_name method_get r = trim_space (query_value (text "username") r)
  edited_name method_other r = trim_space (query_value (text "username") r)

  unfoldable pub handle_user_edit : Session → Form → Act Reply
  handle_user_edit sess r = manageable sess (edited_name r.method r) (edit_by r.method sess r)

  -- A handler that only takes a POST.
  unfoldable pub only_post : Method → Act Reply → Act Reply
  only_post method_post m = m
  only_post method_get m = return method_not_allowed
  only_post method_other m = return method_not_allowed

  unfoldable pub switched : Bool → Form → PanelUser → Act Reply
  switched enabled r old =
      let target : PanelUser = record old { enabled = enabled } in
      attempt (on_db (update_panel_user fault target)) (answer_error 400) λ row. do
        set_suspended enabled (system_user_of target)
        table_or_redirect r (text "/ui/users")

  unfoldable pub handle_user_suspend : Session → Form → Act Reply
  handle_user_suspend sess r =
      only_post r.method
        (manageable sess (trim_space (form_value (text "username") r)) (switched false r))

  unfoldable pub handle_user_enable : Session → Form → Act Reply
  handle_user_enable sess r =
      only_post r.method
        (manageable sess (trim_space (form_value (text "username") r)) (switched true r))

  unfoldable pub deleted : Form → PanelUser → Act Reply
  deleted r target = do
    ignored (on_db (unassign_package fault target.id))
    attempt (on_db (delete_panel_user fault target.id))
        (λ e. redirect (text "/ui/users?error=" ++ e.message))
        λ done. do
          ignored (on_files (host.delete_system_user (system_user_of target)))
          table_or_redirect r (text "/ui/users")

  unfoldable pub handle_user_delete : Session → Form → Act Reply
  handle_user_delete sess r =
      only_post r.method (manageable sess (trim_space (form_value (text "username") r)) (deleted r))
