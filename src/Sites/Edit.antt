-- ===== src/Sites/Edit.antt =====
-- `SiteEdit` of internal/app/site.go. A pointer of the request is an option.
pub mod Laws
use ngm.Base.{
  ℕ, Bool, true, false, not, ◌&&◌, ◌||◌, List, [], ◌∷◌, Option, none, some, Result, ok, err, errorf,
  ◌==◌, if◌then◌else◌, return, fail, try, ◌>>=◌, ◌>>◌,
}
use ngm.Text.{Text, text, text_eq, is_empty, trim_space}
use ngm.Text.Place.{join}
use ngm.Dns.{Provider}
use ngm.Store.{User, Site, UserLimits}
use ngm.Store.Db.{Lookup, found, no_rows, failed, to_result}
use ngm.Store.Db.Users.{get_user_by_id, ensure_user}
use ngm.Store.Db.Sites.{get_site_by_domain, upsert_site}
use ngm.Apply.{normalize_domain}
use ngm.Sites.{is_likely_fqdn, php_version_allowed, derive_default_webroot, normalize_parent}
use ngm.Sites.Panel.{Panel, Act, SiteHost, on_db, on_row, on_files, lift, when}
use ngm.Sites.Overrides.{write_php_overrides_file}
use ngm.Sites.Checks.{
  is_mode, text_or, resolve_user_limits_by_username, parent_label, check_limits, web_group,
}
use ngm.Sites.Delete.{parent_of, site_by_domain}

pub record SiteEditRequest : Type 0 where
  pub domain : Text
  pub user : Text
  pub parent_domain : Text
  pub parent_domain_set : Bool
  pub mode : Text
  pub php : Text
  pub webroot : Text
  pub http3 : Option Bool
  pub enabled : Option Bool
  pub client_max_body_size : Text
  pub php_time_read : Text
  pub php_time_send : Text
  pub php_ini_overrides : Option Text
  pub apply_now : Bool

-- The new value if there is one.
unfoldable pub given {ℓ} : {A : Type ℓ} → Option A → A → A
given none old = old
given (some new) old = new

-- The zero value of `store.User`.
unfoldable pub zero_user : User
zero_user = record { id = 0; username = []; home_dir = []; created_at = 0 }

unfoldable pub user_or_zero : Lookup User → User
user_or_zero (found u) = u
user_or_zero no_rows = zero_user
user_or_zero (failed e) = zero_user

unfoldable pub edited_domain : SiteEditRequest → Result Text
edited_domain req =
    let d = normalize_domain req.domain in
    if is_empty d
    then err (errorf (text "domain is required"))
    else if not (is_likely_fqdn d)
    then err (errorf (text "invalid domain"))
    else ok d

unfoldable pub edited_mode : Text → Text → Result Text
edited_mode [] old = ok old
edited_mode (c ∷ mode) old =
    if is_mode (c ∷ mode) then ok (c ∷ mode) else err (errorf (text "invalid mode"))

unfoldable pub check_php_allowed : List Text → Text → Result (Unit {0})
check_php_allowed allowed version =
    if php_version_allowed allowed version
    then ok tt
    else err (errorf (text "php version is not allowed for this package"))

unfoldable pub edited_parent : SiteEditRequest → Site → Result Text
edited_parent req cur =
    let parent = normalize_domain req.parent_domain in
    if not req.parent_domain_set
    then ok (given cur.parent_domain [])
    else if not (is_empty parent) && not (is_likely_fqdn parent)
    then err (errorf (text "invalid parent domain"))
    else ok parent

-- With DNS the parent stays.
unfoldable pub check_same_parent : Option Provider → Bool → Site → Text → Result (Unit {0})
check_same_parent none set cur parent = ok tt
check_same_parent (some dns) set cur parent =
    if set
      && not (text_eq (normalize_domain parent) (normalize_domain (given cur.parent_domain [])))
    then err (errorf (text "changing parent domain is not supported"))
    else ok tt

unfoldable pub differ : Bool → Bool → Bool
differ true b = not b
differ false b = b

module _ (host : SiteHost) where
  open host use {fault, cfg}

  unfoldable pub new_owner : Text → ℕ → User → Act (ℕ × User)
  new_owner [] id owner = return (id, owner)
  new_owner (c ∷ user) id owner = do
    u ← on_db (ensure_user fault (c ∷ user) (join cfg.hosting.home_root (c ∷ user)))
    return (u.id, u)

  -- The owner, and the name for the owner of its files.
  unfoldable pub known_owner : ℕ → User → Act (User × Text)
  known_owner id owner =
      if owner.id == 0
      then (do
        row ← on_row (get_user_by_id fault id)
        u ← lift (to_result row)
        return (u, text_or owner.username u.username))
      else return (owner, owner.username)

  unfoldable pub edited_webroot : SiteEditRequest → Site → Text → User → Text → Text → Text
  edited_webroot req cur d owner parent label =
      if not (is_empty (trim_space req.webroot))
      then trim_space req.webroot
      else if req.parent_domain_set || not (is_empty (trim_space req.user))
      then derive_default_webroot (join cfg.hosting.home_root owner.username) d parent label
      else cur.webroot

  unfoldable pub limits_if_moved : Option Provider → UserLimits → ℕ → Text → Act (Unit {0})
  limits_if_moved (some dns) limits id parent =
      fail (errorf (text "changing root/subdomain relationship is not supported"))
  limits_if_moved none limits id parent = check_limits host limits id parent

  -- A root domain that becomes a subdomain, or the other way round.
  unfoldable pub check_relation : SiteEditRequest → Site → UserLimits → ℕ → Text → Act (Unit {0})
  check_relation req cur limits id parent =
      when
        (req.parent_domain_set
          && differ (is_empty (parent_of cur.parent_domain)) (is_empty (trim_space parent)))
        (limits_if_moved host.dns limits id (trim_space parent))

  unfoldable pub edited_row : SiteEditRequest → Site → Text → ℕ → Text → Text → Text → Text → Site
  edited_row req cur d id parent mode php webroot = record {
    id = 0;
    user_id = id;
    domain = d;
    parent_domain = normalize_parent parent;
    mode = mode;
    webroot = webroot;
    php_version = php;
    enable_http3 = given req.http3 cur.enable_http3;
    enabled = given req.enabled cur.enabled;
    client_max_body_size = text_or (trim_space req.client_max_body_size) cur.client_max_body_size;
    php_time_read = text_or (trim_space req.php_time_read) cur.php_time_read;
    php_time_send = text_or (trim_space req.php_time_send) cur.php_time_send;
    created_at = 0;
    updated_at = 0;
    last_render_hash = [];
    last_applied_at = none;
    last_apply_status = [];
    last_apply_error = [];
  }

  -- What stands before the row is written: the row, and the name for the owner of its files.
  unfoldable pub edited : SiteEditRequest → Act (Site × Text)
  edited req = do
    d ← lift (edited_domain req)
    cur ← site_by_domain host d
    row ← on_row (get_user_by_id fault cur.user_id)
    (id, first) ← new_owner (trim_space req.user) cur.user_id (user_or_zero row)
    (owner, name) ← known_owner id first
    mode ← lift (edited_mode (trim_space req.mode) cur.mode)
    limits ← resolve_user_limits_by_username host owner.username
    lift (check_php_allowed limits.php_versions (text_or (trim_space req.php) cur.php_version))
    parent ← lift (edited_parent req cur)
    lift (check_same_parent host.dns req.parent_domain_set cur parent)
    label ← parent_label host owner d parent
    check_relation req cur limits owner.id parent
    return (
      edited_row req cur d id parent mode (text_or (trim_space req.php) cur.php_version)
          (edited_webroot req cur d owner parent label),
      text_or name (trim_space req.user),
    )

  unfoldable pub write_overrides_of : Option Text → Site → Text → Act (Unit {0})
  write_overrides_of none s owner = return tt
  write_overrides_of (some raw) s owner =
      if text_eq s.mode (text "php")
      then (do
        try (on_files (write_php_overrides_file host s.webroot owner (web_group host) raw))
        return tt)
      else return tt

  -- What follows the row: none of it is an error.
  unfoldable pub after_edit : SiteEditRequest → Site → Text → Site → Act Site
  after_edit req s owner stored = do
    write_overrides_of req.php_ini_overrides s owner
    try (when req.apply_now (host.apply s.domain))
    return stored

  unfoldable pub site_edit : SiteEditRequest → Act Site
  site_edit req = do
    (s, owner) ← edited req
    stored ← on_db (upsert_site fault s)
    after_edit req s owner stored
