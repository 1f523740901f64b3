-- ===== src/Web/Sites.antt =====
-- The handlers of internal/web/server.go for sites, their proxy targets and the apply. What a page shows
-- beside its message is left out, and so are reads for it whose errors are dropped.
pub mod Laws
pub mod Knobs
use ngm.Base.{
  ℕ, Bool, true, false, not, ◌&&◌, ◌||◌, List, [], ◌∷◌, ◌++◌, Option, none, some, Error, Result, ok,
  err, errorf, ◌==◌, if◌then◌else◌, return, try, ◌>>=◌, ◌>>◌,
}
use ngm.Text.{Text, text, text_eq, is_empty, trim_space}
use ngm.Os.Paths.{other}
use ngm.Os.{read_file}
use ngm.Nginx.{UpstreamTarget}
use ngm.Store.{User, Site, PanelUser}
use ngm.Store.Db.{Lookup, found, no_rows, failed}
use ngm.Store.Db.Users.{get_user_by_id}
use ngm.Store.Db.PanelUsers.{panel_user_named}
use ngm.Store.Db.Targets.{list_proxy_targets_by_site_id, upsert_proxy_target, disable_proxy_target}
use ngm.Apply.{ApplyRequest}
use ngm.Sites.Panel.{Panel, Act, SiteHost, on_db, on_row, on_files}
use ngm.Sites.Overrides.{php_overrides_path_from_webroot}
use ngm.Sites.Checks.{SiteAddRequest}
use ngm.Sites.Add.{SiteAddResult, site_add}
use ngm.Sites.Edit.{SiteEditRequest, site_edit}
use ngm.Sites.Delete.{site_get, site_disable, site_enable, site_delete}
use ngm.Sites.Lists.{site_list}
use ngm.Web.Session.{Session}
use ngm.Web.Login.{Method, method_get, method_post, method_other}
use ngm.Web.Access.{owner_visible}
use ngm.Web.Forms.{
  Form, Reply, http_error, page, fragment, redirect, form_value, query_value, parse_bool, parse_id,
  split_lines, validate_nginx_knobs, attempt, answer_error, method_not_allowed, forbidden,
}

-- `strings.TrimSpace(r.FormValue(name))`
unfoldable pub field : Text → Form → Text
field name r = trim_space (form_value name r)

unfoldable pub knobs_message : Form → Text
knobs_message r =
    validate_nginx_knobs (field (text "clientmax") r) (field (text "phpread") r)
      (field (text "phpsend") r)

unfoldable pub add_request : Form → SiteAddRequest
add_request r = record {
  user = field (text "user") r;
  domain = field (text "domain") r;
  parent_domain = field (text "parent") r;
  mode = field (text "mode") r;
  php = field (text "php") r;
  webroot = field (text "webroot") r;
  http3 = parse_bool (form_value (text "http3") r) true;
  provision = parse_bool (form_value (text "provision") r) true;
  skip_cert = parse_bool (form_value (text "skipcert") r) false;
  apply_now = parse_bool (form_value (text "applynow") r) true;
  client_max_body_size = field (text "clientmax") r;
  php_time_read = field (text "phpread") r;
  php_time_send = field (text "phpsend") r;
  php_ini_overrides =
      if text_eq (field (text "mode") r) (text "php") then field (text "phpini") r else [];
  proxy_targets = split_lines (form_value (text "targets") r);
}

unfoldable pub no_targets : List Text → Bool
no_targets [] = true
no_targets (t ∷ ts) = false

-- The request to `SiteAdd`, or the message of the page.
unfoldable pub posted_new : Form → Result SiteAddRequest
posted_new r =
    let req = add_request r in
    if not (is_empty (knobs_message r))
    then err (errorf (knobs_message r))
    else if text_eq req.mode (text "proxy") && (req.apply_now && no_targets req.proxy_targets)
    then err (
        errorf (
          text
            "Proxy mode requires at least 1 proxy target when Apply Now is enabled. Add targets or disable Apply Now."))
    else ok req

unfoldable pub posted_edit : Form → Result SiteEditRequest
posted_edit r =
    if not (is_empty (knobs_message r))
    then err (errorf (knobs_message r))
    else ok (record {
      domain = field (text "domain") r;
      user = field (text "user") r;
      parent_domain = field (text "parent") r;
      parent_domain_set = true;
      mode = field (text "mode") r;
      php = field (text "php") r;
      webroot = field (text "webroot") r;
      http3 = some (parse_bool (form_value (text "http3") r) true);
      enabled = some (parse_bool (form_value (text "enabled") r) true);
      client_max_body_size = field (text "clientmax") r;
      php_time_read = field (text "phpread") r;
      php_time_send = field (text "phpsend") r;
      php_ini_overrides =
          if text_eq (field (text "mode") r) (text "php")
          then some (field (text "phpini") r)
          else none;
      apply_now = parse_bool (form_value (text "applynow") r) false;
    })

unfoldable pub any_enabled : List UpstreamTarget → Bool
any_enabled [] = false
any_enabled (t ∷ ts) = t.enabled || any_enabled ts

unfoldable pub form_page : Error → Reply
form_page e = page (text "site_form") e.message

module _ (host : SiteHost) where
  open host use {fault, env}

  unfoldable pub panel_user_seen : Session → Lookup PanelUser → Bool
  panel_user_seen sess (found pu) = owner_visible sess (some pu)
  panel_user_seen sess no_rows = false
  panel_user_seen sess (failed e) = false

  unfoldable pub user_seen : Session → Lookup User → Act Bool
  user_seen sess (found u) = do
    pu ← on_row (panel_user_named fault u.username)
    return (panel_user_seen sess pu)
  user_seen sess no_rows = return false
  user_seen sess (failed e) = return false

  unfoldable pub site_seen : Session → Result Site → Act Bool
  site_seen sess (err e) = return false
  site_seen sess (ok s) = do u ← on_row (get_user_by_id fault s.user_id); user_seen sess u

  -- `siteVisibleToSession` over the database, whose calls may fail.
  unfoldable pub visible : Session → Text → Act Bool
  visible sess domain =
      if text_eq sess.role (text "admin")
      then return true
      else do s ← try (site_get host domain); site_seen sess s

  unfoldable pub if_seen : Act Reply → Bool → Act Reply
  if_seen next true = next
  if_seen next false = return forbidden

  unfoldable pub if_visible : Session → Text → Act Reply → Act Reply
  if_visible sess domain next = do seen ← visible sess domain; if_seen next seen

  -- `siteListData` fails where `SiteList` does.
  unfoldable pub sites_or_redirect : Form → Act Reply
  sites_or_redirect r =
      if r.hx
      then attempt (site_list host) (answer_error 500)
          (λ items. return (fragment (text "sites_table")))
      else return (redirect (text "/ui/sites"))

  unfoldable pub post_only : Method → Act Reply → Act Reply
  post_only method_post m = m
  post_only method_get m = return method_not_allowed
  post_only method_other m = return method_not_allowed

  unfoldable pub on_site : {A : Type 0} → Session → Form → (Text → Act A) → Act Reply
  on_site sess r act = post_only r.method (
      if_visible sess (field (text "domain") r)
        (attempt (act (field (text "domain") r)) (answer_error 400) (λ a. sites_or_redirect r)))

  unfoldable pub handle_site_disable : Session → Form → Act Reply
  handle_site_disable sess r = on_site sess r (site_disable host)

  unfoldable pub handle_site_enable : Session → Form → Act Reply
  handle_site_enable sess r = on_site sess r (site_enable host)

  unfoldable pub handle_site_delete : Session → Form → Act Reply
  handle_site_delete sess r = on_site sess r (site_delete host)

  unfoldable pub post_site_new : Result SiteAddRequest → Act Reply
  post_site_new (err e) = return (form_page e)
  post_site_new (ok req) =
      attempt (site_add host req) form_page (λ res. return (page (text "site_form") []))

  -- The session is not asked for: who posts may name any owner.
  unfoldable pub handle_site_new : Session → Form → Act Reply
  handle_site_new sess r = elim r.method [
    | method_get ↦ return (page (text "site_form") [])
    | method_post ↦ post_site_new (posted_new r)
    | method_other ↦ return method_not_allowed
  ]

  unfoldable pub shown_owner : Site → Act (Unit {0})
  shown_owner s =
      if s.user_id == 0 then return tt else (do on_row (get_user_by_id fault s.user_id); return tt)

  unfoldable pub shown_overrides : Site → Act (Unit {0})
  shown_overrides s =
      if text_eq (trim_space s.mode) (text "php")
      then (do
        try (on_files (read_file env (other (php_overrides_path_from_webroot s.webroot))))
        return tt)
      else return tt

  unfoldable pub edit_page : Text → Act Reply
  edit_page domain =
      attempt (site_get host domain) (answer_error 400)
        λ cur. do shown_owner cur; shown_overrides cur; return (page (text "site_form") [])

  unfoldable pub save_edit : SiteEditRequest → Act Reply
  save_edit req =
      attempt (site_edit host req) form_page (λ updated. return (page (text "site_form") []))

  unfoldable pub if_enabled : SiteEditRequest → List UpstreamTarget → Act Reply
  if_enabled req targets =
      if any_enabled targets
      then save_edit req
      else return (
          page (text "site_form") (
            text
              "Proxy mode requires at least 1 enabled proxy target to Apply Now. Go to Targets and add one first."))

  unfoldable pub post_site_edit : Result SiteEditRequest → Act Reply
  post_site_edit (err e) = return (form_page e)
  post_site_edit (ok req) =
      if text_eq req.mode (text "proxy") && req.apply_now
      then attempt (site_get host req.domain) (answer_error 400) (λ cur.
        attempt (on_db (list_proxy_targets_by_site_id fault cur.id)) (answer_error 500)
          (if_enabled req))
      else save_edit req

  unfoldable pub edit_by : Method → Session → Form → Act Reply
  edit_by method_get sess r =
      if_visible sess (trim_space (query_value (text "domain") r))
        (edit_page (trim_space (query_value (text "domain") r)))
  edit_by method_post sess r =
      if_visible sess (field (text "domain") r) (post_site_edit (posted_edit r))
  edit_by method_other sess r = return method_not_allowed

  unfoldable pub handle_site_edit : Session → Form → Act Reply
  handle_site_edit sess r = edit_by r.method sess r

  unfoldable pub targets_or_redirect : Form → Site → Act Reply
  targets_or_redirect r s =
      if r.hx
      then (do
        try (on_db (list_proxy_targets_by_site_id fault s.id))
        return (fragment (text "proxy_targets_table")))
      else return (redirect (text "/ui/sites/targets?domain=" ++ field (text "domain") r))

  unfoldable pub proxy_site : Site → Act Reply → Act Reply
  proxy_site s next =
      if text_eq (trim_space s.mode) (text "proxy")
      then next
      else return (http_error 400 (text "site is not in proxy mode"))

  -- The weight of a form is a number or 0; a negative one, which the table here cannot hold, is 0 as well.
  unfoldable pub saved_target : Form → Site → Act Reply
  saved_target r s = proxy_site s (
      attempt
        (on_db (
          upsert_proxy_target fault s.id (field (text "target") r)
            (parse_id (field (text "weight") r)) (parse_bool (form_value (text "backup") r) false)
            (parse_bool (form_value (text "enabled") r) true)))
        (answer_error 400) (λ done. targets_or_redirect r s))

  unfoldable pub with_target : Form → (Site → Act Reply) → Act Reply
  with_target r next =
      if is_empty (field (text "domain") r) || is_empty (field (text "target") r)
      then return (http_error 400 (text "domain and target are required"))
      else attempt (site_get host (field (text "domain") r)) (answer_error 400) next

  -- Neither of the two asks whether the session may see the site.
  unfoldable pub handle_proxy_target_add : Session → Form → Act Reply
  handle_proxy_target_add sess r = post_only r.method (with_target r (saved_target r))

  unfoldable pub handle_proxy_target_del : Session → Form → Act Reply
  handle_proxy_target_del sess r = post_only r.method (
      with_target r λ s.
        attempt (on_db (disable_proxy_target fault s.id (field (text "target") r)))
          (answer_error 400) (λ done. targets_or_redirect r s))

  unfoldable pub shown_targets : Text → Act Reply
  shown_targets domain =
      if is_empty domain
      then return (http_error 400 (text "domain is required"))
      else attempt (site_get host domain) (answer_error 400) (λ s. proxy_site s (
          attempt (on_db (list_proxy_targets_by_site_id fault s.id)) (answer_error 500)
            (λ targets. return (page (text "proxy_targets") []))))

  unfoldable pub handle_proxy_targets : Session → Form → Act Reply
  handle_proxy_targets sess r = elim r.method [
    | method_get ↦
        if_visible sess (trim_space (query_value (text "domain") r))
          (shown_targets (trim_space (query_value (text "domain") r)))
    | method_post ↦ return method_not_allowed
    | method_other ↦ return method_not_allowed
  ]

  -- `run` is `Apply`; its result is shown with or without an error.
  module _ (run : ApplyRequest → Act (Unit {0})) where
    unfoldable pub apply_shown : Form → Result (Unit {0}) → Reply
    apply_shown r (ok u) =
        if r.hx then fragment (text "apply_result_fragment") else page (text "apply_result") []
    apply_shown r (err e) =
        if r.hx
        then fragment (text "apply_result_fragment")
        else page (text "apply_result") e.message

    unfoldable pub apply_now : Form → Bool → Act Reply
    apply_now r all = do
      done ← try (
          run (record {
            domain = field (text "domain") r;
            apply_all = all;
            dry_run = parse_bool (form_value (text "dry") r) false;
            limit = parse_id (field (text "limit") r);
          }))
      return (apply_shown r done)

    unfoldable pub post_apply : Session → Form → Act Reply
    post_apply sess r =
        if text_eq sess.role (text "admin")
        then apply_now r (parse_bool (form_value (text "all") r) false)
        else if is_empty (field (text "domain") r)
        then return (http_error 400 (text "domain is required"))
        else if_visible sess (field (text "domain") r) (apply_now r false)

    unfoldable pub handle_apply : Session → Form → Act Reply
    handle_apply sess r = elim r.method [
      | method_get ↦ return (page (text "apply_form") [])
      | method_post ↦ post_apply sess r
      | method_other ↦ return method_not_allowed
    ]
