-- ===== src/Sites/Checks.antt =====
-- What `SiteAdd` of internal/app/site.go checks and makes before it writes a row.
use ngm.Base.{
  ℕ, Bool, true, false, not, ◌&&◌, ◌||◌, List, [], ◌∷◌, ◌++◌, Option, none, some, Result, ok, err,
  errorf, if◌then◌else◌, return, fail, ◌>>=◌, ◌>>◌,
}
use ngm.Text.{Text, text, text_eq, is_empty, trim_space}
use ngm.Text.Place.{join}
use ngm.Dns.{SiteDnsInput, kind_root, kind_subdomain}
use ngm.Store.{User, Site, UserLimits, PanelUser}
use ngm.Store.PanelUsers.{get_panel_user_by_username}
use ngm.Store.Db.{Lookup, found, no_rows, failed, query_row}
use ngm.Store.Db.Users.{ensure_user}
use ngm.Store.Db.Sites.{
  get_site_by_domain, count_root_domains_by_user_id, count_subdomains_by_user_id,
}
use ngm.Store.Db.Packages.{get_effective_limits, LimitsError, no_package_assigned, other_error}
use ngm.Apply.{normalize_domain}
use ngm.Sites.{
  is_likely_fqdn, ParentCheck, no_parent, under, refused, validate_parent_domain, within_limit,
  php_version_allowed, derive_default_webroot, normalize_parent,
}
use ngm.Sites.Panel.{Act, SiteHost, on_db, on_row, on_files, lift, when}

pub record SiteAddRequest : Type 0 where
  pub user : Text
  pub domain : Text
  pub parent_domain : Text
  pub mode : Text
  pub php : Text
  pub webroot : Text
  pub http3 : Bool
  pub provision : Bool
  pub skip_cert : Bool
  pub apply_now : Bool
  pub client_max_body_size : Text
  pub php_time_read : Text
  pub php_time_send : Text
  pub php_ini_overrides : Text
  pub proxy_targets : List Text

-- The request after its checks.
pub record Checked : Type 0 where
  pub user : Text
  pub domain : Text
  pub parent : Text
  pub mode : Text
  pub php : Text

unfoldable pub is_mode : Text → Bool
is_mode m = text_eq m (text "php") || (text_eq m (text "proxy") || text_eq m (text "static"))

unfoldable pub text_or : Text → Text → Text
text_or [] other = other
text_or (c ∷ s) other = c ∷ s

-- The errors' texts leave out what they quote.
unfoldable pub check_request : Text → SiteAddRequest → Result Checked
check_request default_version req =
    let user = trim_space req.user in
    let domain = normalize_domain req.domain in
    let parent = normalize_domain req.parent_domain in
    let mode = text_or (trim_space req.mode) (text "php") in
    if is_empty user || is_empty domain
    then err (errorf (text "required: user and domain"))
    else if not (is_likely_fqdn domain)
    then err (errorf (text "invalid domain"))
    else if not (is_empty parent) && not (is_likely_fqdn parent)
    then err (errorf (text "invalid parent domain"))
    else if not (is_mode mode)
    then err (errorf (text "invalid mode"))
    else ok (record {
      user = user;
      domain = domain;
      parent = parent;
      mode = mode;
      php = text_or (trim_space req.php) default_version;
    })

-- The label in front of the parent domain, if there is one.
unfoldable pub label_of : ParentCheck → Result Text
label_of no_parent = ok []
label_of (under site label) = ok label
label_of (refused e) = err (errorf (text "parent domain refused"))

unfoldable pub found_site : Lookup Site → Option Site
found_site (found s) = some s
found_site no_rows = none
found_site (failed e) = none

module _ (host : SiteHost) where
  open host use {fault, env, cfg}

  unfoldable pub site_dns_input_from_parts : Text → Text → SiteDnsInput
  site_dns_input_from_parts domain parent = record {
    fqdn = normalize_domain domain;
    parent_domain = normalize_domain parent;
    template = cfg.dns.default_template;
    default_ipv4 = trim_space cfg.dns.default_ipv4;
    default_ipv6 = trim_space cfg.dns.default_ipv6;
    site_kind = if is_empty (normalize_domain parent) then kind_root else kind_subdomain;
  }

  unfoldable pub web_group : Text
  web_group = text_or cfg.hosting.web_group (text "www-data")

  -- `ErrNoPackageAssigned` is no error here.
  unfoldable pub limits_result : UserLimits × Option LimitsError → Result UserLimits
  limits_result (l, none) = ok l
  limits_result (l, some no_package_assigned) = ok l
  limits_result (l, some (other_error e)) = err e

  unfoldable pub panel_user_result : Text → Lookup PanelUser → Result PanelUser
  panel_user_result name (found u) = ok u
  panel_user_result name no_rows = err (errorf (text "panel user " ++ (name ++ text " not found")))
  panel_user_result name (failed e) =
      err (errorf (text "panel user " ++ (name ++ text " not found")))

  unfoldable pub resolve_user_limits_by_username : Text → Act UserLimits
  resolve_user_limits_by_username name = do
    row ←
        on_row (query_row fault (λ db. get_panel_user_by_username (trim_space name) db.panel_users))
    u ← lift (panel_user_result name row)
    limits ← on_row (get_effective_limits fault u.id u.role)
    lift (limits_result limits)

  -- The parent's row is looked up before the checks that stand in front of the look-up: where one of
  -- them refuses, nothing follows.
  unfoldable pub parent_label : User → Text → Text → Act Text
  parent_label owner domain parent = if is_empty (normalize_domain parent) then return [] else (do
    row ← on_row (get_site_by_domain fault (normalize_domain parent))
    lift (label_of (validate_parent_domain (λ d. found_site row) owner domain parent)))

  unfoldable pub enforce_max_limit : Bool → Text → Act (Unit {0})
  enforce_max_limit within message = if within then return tt else fail (errorf message)

  unfoldable pub check_limits : UserLimits → ℕ → Text → Act (Unit {0})
  check_limits limits id [] = do
    n ← on_db (count_root_domains_by_user_id fault id)
    enforce_max_limit (within_limit limits.max_domains n) (text "domain limit reached")
  check_limits limits id (c ∷ parent) = do
    n ← on_db (count_subdomains_by_user_id fault id)
    enforce_max_limit (within_limit limits.max_subdomains n) (text "subdomain limit reached")

  unfoldable pub provision_site : Text → Text → Text → Act (Unit {0})
  provision_site user home webroot = do
    on_files (host.ensure_system_user user home)
    on_files (host.ensure_site_dirs user home webroot web_group)

  -- Whether the row of the domain is new.
  unfoldable pub is_new : Lookup Site → Result Bool
  is_new (found s) = ok false
  is_new no_rows = ok true
  is_new (failed e) = err e

  unfoldable pub site_row : SiteAddRequest → Checked → User → Text → Site
  site_row req c u webroot = record {
    id = 0;
    user_id = u.id;
    domain = c.domain;
    parent_domain = normalize_parent c.parent;
    mode = c.mode;
    webroot = webroot;
    php_version = c.php;
    enable_http3 = req.http3;
    enabled = true;
    client_max_body_size = trim_space req.client_max_body_size;
    php_time_read = trim_space req.php_time_read;
    php_time_send = trim_space req.php_time_send;
    created_at = 0;
    updated_at = 0;
    last_render_hash = [];
    last_applied_at = none;
    last_apply_status = [];
    last_apply_error = [];
  }

  -- What stands before the row is written: the row, and the user's home.
  unfoldable pub prepare : SiteAddRequest → Act Site
  prepare req = do
    c ← lift (check_request cfg.phpfpm.default_version req)
    u ← on_db (ensure_user fault c.user (join cfg.hosting.home_root c.user))
    limits ← resolve_user_limits_by_username u.username
    lift (
        if php_version_allowed limits.php_versions c.php
        then ok tt
        else err (errorf (text "php version is not allowed for this package")))
    label ← parent_label u c.domain c.parent
    check_limits limits u.id c.parent
    (let webroot =
          text_or (trim_space req.webroot)
            (derive_default_webroot (join cfg.hosting.home_root c.user) c.domain c.parent label) in
        do
          when req.provision (provision_site c.user (join cfg.hosting.home_root c.user) webroot)
          return (site_row req c u webroot))
