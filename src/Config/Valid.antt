-- ===== src/Config/Valid.antt =====
-- `Validate` and `Load` of internal/config/config.go. A problem is a value here, with what its
-- message quotes; the text of the message is left out. `net.ParseCIDR` and the YAML decoder are
-- arguments.
pub mod Laws
use ngm.Base.{
  ℕ, ◌+◌, Bool, true, false, not, ◌&&◌, ◌||◌, List, [], ◌∷◌, ◌++◌, Option, none, some,
  if◌then◌else◌,
}
use ngm.Base.Dict.{lookup}
use ngm.Text.{Text, text, text_eq, is_empty, trim_space, to_lower}
use ngm.Config.{Config, NginxConfig, ApiConfig, CertsConfig, PhpFpmConfig, PhpFpmVersion, DnsConfig}
use ngm.Config.Defaults.{apply_defaults}

pub data Problem : Type 0 where
  root_required : Problem
  reload_mode_unsupported : Text → Problem
  no_tokens : Problem
  token_empty : ℕ → Problem
  allow_ip_empty : ℕ → Problem
  allow_ip_invalid : ℕ → Text → Text → Problem
  certs_mode_unsupported : Text → Problem
  webroot_required : Problem
  letsencrypt_live_required : Problem
  default_version_unknown : Text → Problem
  pools_dir_required : Text → Problem
  service_required : Text → Problem
  sock_dir_required : Text → Problem
  default_template_required : Problem
  default_template_unknown : Text → Problem
  named_conf_include_required : Problem
  zones_dir_required : Problem

-- `strings.TrimSpace(s) == ""`
unfoldable pub is_blank : Text → Bool
is_blank s = is_empty (trim_space s)

unfoldable pub problem_if : Bool → Problem → List Problem
problem_if true p = p ∷ []
problem_if false p = []

unfoldable pub is_some : {A : Type 0} → Option A → Bool
is_some none = false
is_some (some a) = true

unfoldable pub is_none_of : {A : Type 0} → List A → Bool
is_none_of [] = true
is_none_of (x ∷ xs) = false

unfoldable pub is_reload_mode : Text → Bool
is_reload_mode mode =
    let m = to_lower (trim_space mode) in text_eq m (text "signal") || text_eq m (text "systemd")

unfoldable pub check_nginx : NginxConfig → List Problem
check_nginx n =
    problem_if (is_blank n.root) root_required
    ++ problem_if (not (is_blank n.apply.reload_mode) && not (is_reload_mode n.apply.reload_mode))
        (reload_mode_unsupported n.apply.reload_mode)

unfoldable pub check_tokens : ℕ → List Text → List Problem
check_tokens i [] = []
check_tokens i (t ∷ ts) = problem_if (is_blank t) (token_empty i) ++ check_tokens (i + 1) ts

-- What `net.ParseCIDR` answers, an error or none.
unfoldable pub check_cidr : ℕ → Text → Option Text → List Problem
check_cidr i cidr none = []
check_cidr i cidr (some e) = allow_ip_invalid i cidr e ∷ []

unfoldable pub check_versions : List (Text × PhpFpmVersion) → List Problem
check_versions [] = []
check_versions ((ver, v) ∷ vs) =
    (problem_if (is_blank v.pools_dir) (pools_dir_required ver)
      ++ (problem_if (is_blank v.service) (service_required ver)
          ++ problem_if (is_blank v.sock_dir) (sock_dir_required ver)))
    ++ check_versions vs

unfoldable pub check_php : PhpFpmConfig → List Problem
check_php p =
    problem_if
      (not (is_empty p.default_version)
        && (not (is_some (lookup text_eq p.default_version p.versions))
            && not (is_none_of p.versions)))
      (default_version_unknown p.default_version)
    ++ check_versions p.versions

unfoldable pub check_certs : CertsConfig → List Problem
check_certs c =
    problem_if (not (is_empty c.mode) && not (text_eq c.mode (text "certbot")))
      (certs_mode_unsupported c.mode)
    ++ (problem_if (is_blank c.webroot) webroot_required
        ++ problem_if (is_blank c.letsencrypt_live) letsencrypt_live_required)

unfoldable pub check_enabled_dns : DnsConfig → List Problem
check_enabled_dns d =
    problem_if (is_blank d.default_template) default_template_required
    ++ (problem_if (not (is_some (lookup text_eq d.default_template d.templates)))
          (default_template_unknown d.default_template)
        ++ (problem_if (is_blank d.bind.named_conf_include) named_conf_include_required
            ++ problem_if (is_blank d.bind.zones_dir) zones_dir_required))

unfoldable pub check_dns : DnsConfig → List Problem
check_dns d = if d.enabled then check_enabled_dns d else []

pub data Loaded : Type 0 where
  unreadable : Text → Loaded
  unparsable : Text → Loaded
  invalid : List Problem → Loaded
  loaded : Config → Loaded

pub data Parsed : Type 0 where
  parsed : Config → Parsed
  not_parsed : Text → Parsed

pub data ReadFile : Type 0 where
  contents : Text → ReadFile
  not_read : Text → ReadFile

unfoldable pub load_checked : Config → List Problem → Loaded
load_checked c [] = loaded c
load_checked c (p ∷ ps) = invalid (p ∷ ps)

module _ (parse_cidr : Text → Option Text) where
  unfoldable pub check_allow_ips : ℕ → List Text → List Problem
  check_allow_ips i [] = []
  check_allow_ips i (cidr ∷ cidrs) =
      (if is_blank cidr then allow_ip_empty i ∷ [] else check_cidr i cidr (parse_cidr cidr))
      ++ check_allow_ips (i + 1) cidrs

  unfoldable pub check_api : ApiConfig → List Problem
  check_api a =
      problem_if (is_none_of a.tokens) no_tokens
      ++ (check_tokens 0 a.tokens ++ check_allow_ips 0 a.allow_ips)

  -- The problems that `Validate` joins into its error: none, and it returns nil.
  unfoldable pub validate : Config → List Problem
  validate c =
      check_nginx c.nginx
      ++ (check_api c.api ++ (check_certs c.certs ++ (check_php c.phpfpm ++ check_dns c.dns)))

  unfoldable pub load_parsed : Bool → Parsed → Loaded
  load_parsed systemd (parsed c) =
      load_checked (apply_defaults systemd c) (validate (apply_defaults systemd c))
  load_parsed systemd (not_parsed e) = unparsable e

  unfoldable pub load : (Text → Parsed) → Bool → ReadFile → Loaded
  load decode systemd (contents b) = load_parsed systemd (decode b)
  load decode systemd (not_read e) = unreadable e
