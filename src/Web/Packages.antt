-- ===== src/Web/Packages.antt =====
-- The handlers of internal/web/server.go for packages and for resellers. What a page shows beside its
-- message is left out.
use ngm.Base.{
  ℕ, Bool, true, false, ◌&&◌, ◌||◌, List, [], ◌∷◌, ◌++◌, Option, some, Result, ok, err,
  if◌then◌else◌, return, try, ◌>>=◌,
}
use ngm.Text.{Text, text, text_eq, is_empty, trim_space}
use ngm.Store.{PanelUser, Package, UserLimits, pos, limits_of}
use ngm.Store.Db.{to_result}
use ngm.Store.Db.PanelUsers.{
  panel_user_named, create_panel_user, update_panel_user, delete_panel_user, list_panel_users,
}
use ngm.Store.Db.Packages.{
  list_packages, create_package, update_package, delete_package, get_package_by_id,
}
use ngm.Sites.Panel.{Act, on_db, on_row, lift}
use ngm.Web.Session.{Session}
use ngm.Web.Login.{Method, method_get, method_post, method_other}
use ngm.Web.Access.{is_id}
use ngm.Web.Forms.{
  Form, Reply, http_error, page, fragment, redirect, form_value, query_value, parse_bool, parse_id,
  attempt, answer_error, method_not_allowed,
}

-- The packages that a reseller made; anybody else sees all.
unfoldable pub made_by : ℕ → List Package → List Package
made_by id [] = []
made_by id (p ∷ ps) = let rest = made_by id ps in if is_id p.created_by id then p ∷ rest else rest

unfoldable pub assignable : Session → List Package → List Package
assignable sess ps = if text_eq sess.role (text "reseller") then made_by sess.user_id ps else ps

-- The limits of a new package; those that the handler does not set are 0.
unfoldable pub new_limits : UserLimits
new_limits = record (limits_of (pos 0)) {
  max_domains = pos 5;
  max_subdomains = pos 20;
  max_disk_mb = pos 1024;
  max_php_workers = pos 5;
  max_mysql_dbs = pos 1;
  max_mysql_users = pos 2;
}

unfoldable pub new_package : Session → Form → Package
new_package sess r = record {
  id = 0;
  name = trim_space (form_value (text "name") r);
  created_by = some sess.user_id;
  limits = new_limits;
  created_at = 0;
  updated_at = 0;
}

unfoldable pub is_reseller : PanelUser → Bool
is_reseller u = text_eq u.role (text "reseller")

-- `u.Role == "user" && u.ResellerID != nil && *u.ResellerID == id`
unfoldable pub is_owned : ℕ → PanelUser → Bool
is_owned id u = text_eq u.role (text "user") && is_id u.reseller_id id

unfoldable pub any_owned : ℕ → List PanelUser → Bool
any_owned id [] = false
any_owned id (u ∷ us) = is_owned id u || any_owned id us

abbrev pub not_found : Reply
unfolding text
not_found = http_error 404 (text "not found")

-- What a failing list is read as where its error is dropped.
unfoldable pub listed_or_none : Result (List PanelUser) → List PanelUser
listed_or_none (ok us) = us
listed_or_none (err e) = []

-- Which call of the database fails, and `bcrypt.GenerateFromPassword`.
module _ (fault : ℕ → Option Text) (generate : Text → Result Text) where
  unfoldable pub list_assignable_packages : Session → Act (List Package)
  list_assignable_packages sess = do ps ← on_db (list_packages fault); return (assignable sess ps)

  unfoldable pub handle_packages : Session → Form → Act Reply
  handle_packages sess r =
      attempt (on_db (list_packages fault)) (answer_error 500)
        (λ ps. return (page (text "packages") []))

  unfoldable pub post_package : Session → Form → Act Reply
  post_package sess r =
      attempt (on_db (create_package fault (new_package sess r)))
        (λ e. page (text "package_form") e.message) (λ p. return (redirect (text "/ui/packages")))

  unfoldable pub handle_package_new : Session → Form → Act Reply
  handle_package_new sess r = elim r.method [
    | method_get ↦ return (page (text "package_form") [])
    | method_post ↦ post_package sess r
    | method_other ↦ post_package sess r
  ]

  unfoldable pub posted_only : Method → Act Reply → Act Reply
  posted_only method_post m = m
  posted_only method_get m = return method_not_allowed
  posted_only method_other m = return method_not_allowed

  unfoldable pub package_of : ℕ → Act Package
  package_of id = do row ← on_row (get_package_by_id fault id); lift (to_result row)

  unfoldable pub renamed : Form → Package → Package
  renamed r p = record p { name = trim_space (form_value (text "name") r) }

  -- Whose package it is, is not asked.
  unfoldable pub handle_package_edit : Session → Form → Act Reply
  handle_package_edit sess r = posted_only r.method (
      attempt (package_of (parse_id (form_value (text "id") r))) (answer_error 400) (λ p.
        attempt (on_db (update_package fault (renamed r p))) (answer_error 400)
          (λ q. return (redirect (text "/ui/packages")))))

  unfoldable pub handle_package_delete : Session → Form → Act Reply
  handle_package_delete sess r = posted_only r.method (
      attempt (on_db (delete_package fault (parse_id (form_value (text "id") r))))
        (answer_error 400) (λ done. return (redirect (text "/ui/packages"))))

  unfoldable pub handle_resellers : Session → Form → Act Reply
  handle_resellers sess r =
      attempt (on_db (list_panel_users fault)) (answer_error 500)
        (λ us. return (page (text "resellers") []))

  unfoldable pub create_reseller : Form → Text → Text → Act Reply
  create_reseller r username hash =
      attempt
        (on_db (
          create_panel_user fault username hash (text "reseller")
            (parse_bool (form_value (text "enabled") r) true)))
        (λ e. page (text "reseller_form") e.message)
        (λ u. return (redirect (text "/ui/resellers?info=reseller+created")))

  unfoldable pub post_reseller : Form → Act Reply
  post_reseller r =
      let username = trim_space (form_value (text "username") r) in
      let password = form_value (text "password") r in
      if is_empty username || is_empty password
      then return (page (text "reseller_form") (text "username and password are required"))
      else attempt (lift (generate password)) (answer_error 400) (create_reseller r username)

  unfoldable pub handle_reseller_new : Session → Form → Act Reply
  handle_reseller_new sess r = elim r.method [
    | method_get ↦ return (page (text "reseller_form") [])
    | method_post ↦ post_reseller r
    | method_other ↦ post_reseller r
  ]

  unfoldable pub panel_user_of_name : Text → Act PanelUser
  panel_user_of_name name = do row ← on_row (panel_user_named fault name); lift (to_result row)

  unfoldable pub if_reseller : (PanelUser → Act Reply) → PanelUser → Act Reply
  if_reseller next u = if is_reseller u then next u else return not_found

  unfoldable pub on_reseller : Text → (PanelUser → Act Reply) → Act Reply
  on_reseller name next = attempt (panel_user_of_name name) (λ e. not_found) (if_reseller next)

  unfoldable pub save_reseller : PanelUser → Act Reply
  save_reseller u =
      attempt (on_db (update_panel_user fault u)) (answer_error 400)
        (λ row. return (redirect (text "/ui/resellers?info=reseller+updated")))

  unfoldable pub edit_reseller : Form → PanelUser → Act Reply
  edit_reseller r old =
      let u : PanelUser = record old {
        enabled = parse_bool (form_value (text "enabled") r) true;
      } in
      let password = trim_space (form_value (text "password") r) in
      if is_empty password
      then save_reseller u
      else attempt (lift (generate password)) (answer_error 400)
          (λ hash. save_reseller (record u { password_hash = hash }))

  unfoldable pub reseller_form : PanelUser → Act Reply
  reseller_form u = return (page (text "reseller_form") [])

  unfoldable pub handle_reseller_edit : Session → Form → Act Reply
  handle_reseller_edit sess r = elim r.method [
    | method_get ↦ on_reseller (trim_space (query_value (text "username") r)) reseller_form
    | method_post ↦ on_reseller (trim_space (form_value (text "username") r)) (edit_reseller r)
    | method_other ↦ on_reseller (trim_space (query_value (text "username") r)) (edit_reseller r)
  ]

  unfoldable pub resellers_or_redirect : Form → Text → Act Reply
  resellers_or_redirect r to =
      if r.hx
      then attempt (on_db (list_panel_users fault)) (answer_error 500)
          (λ us. return (fragment (text "resellers_table")))
      else return (redirect to)

  unfoldable pub remove_reseller : Form → PanelUser → Act Reply
  remove_reseller r u =
      attempt (on_db (delete_panel_user fault u.id))
        (λ e. redirect (text "/ui/resellers?error=" ++ e.message))
        (λ done. resellers_or_redirect r (text "/ui/resellers?info=reseller+deleted"))

  -- The error of the list is dropped: a list that fails is read as one with no user.
  unfoldable pub unless_owned : Form → PanelUser → Result (List PanelUser) → Act Reply
  unless_owned r u listed =
      if any_owned u.id (listed_or_none listed)
      then return (redirect (text "/ui/resellers?error=cannot+delete+reseller+with+owned+users"))
      else remove_reseller r u

  unfoldable pub delete_reseller : Form → PanelUser → Act Reply
  delete_reseller r u = do listed ← try (on_db (list_panel_users fault)); unless_owned r u listed

  unfoldable pub handle_reseller_delete : Session → Form → Act Reply
  handle_reseller_delete sess r =
      posted_only r.method
        (on_reseller (trim_space (form_value (text "username") r)) (delete_reseller r))

  unfoldable pub enabled_reseller : Bool → Form → PanelUser → Act Reply
  enabled_reseller enabled r u =
      attempt (on_db (update_panel_user fault (record u { enabled = enabled }))) (answer_error 400)
        (λ row. resellers_or_redirect r (text "/ui/resellers"))

  unfoldable pub set_reseller_enabled : Form → Bool → Act Reply
  set_reseller_enabled r enabled =
      posted_only r.method
        (on_reseller (trim_space (form_value (text "username") r)) (enabled_reseller enabled r))

  unfoldable pub handle_reseller_disable : Session → Form → Act Reply
  handle_reseller_disable sess r = set_reseller_enabled r false

  unfoldable pub handle_reseller_enable : Session → Form → Act Reply
  handle_reseller_enable sess r = set_reseller_enabled r true
