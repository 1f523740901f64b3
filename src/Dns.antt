-- ===== src/Dns.antt =====
-- internal/dns/types.go and provider.go: what a DNS provider is asked for, and its answers. The
-- children model the provider of internal/dns/bind.
pub mod Records
pub mod Zone
pub mod Include
pub mod Bind
pub mod Entry
use ngm.Base.{
  ℕ, Bool, true, false, ◌&&◌, not, List, [], Option, Error, Result, ok, err, errorf, if◌then◌else◌,
}
use ngm.Text.{Text, text, text_eq, is_empty}
use ngm.Os.{Io, World}

pub record SiteDnsInput : Type 0 where
  pub fqdn : Text
  pub parent_domain : Text
  pub template : Text
  pub default_ipv4 : Text
  pub default_ipv6 : Text
  pub site_kind : Text

pub record DnsEntry : Type 0 where
  pub fqdn : Text
  pub zone : Text
  pub kind : Text
  pub status : Text
  pub record_text : List Text
  pub zone_file : Text

unfoldable pub kind_root : Text
kind_root = text "root"

unfoldable pub kind_subdomain : Text
kind_subdomain = text "subdomain"

-- `Validate`: the text of the error, with the kind in quotes.
unfoldable pub validate : SiteDnsInput → Result (Unit {0})
validate in' =
    if is_empty in'.fqdn
    then err (errorf (text "fqdn is required"))
    else if not (text_eq in'.site_kind kind_root) && not (text_eq in'.site_kind kind_subdomain)
    then err (errorf (text "invalid site kind"))
    else if text_eq in'.site_kind kind_subdomain && is_empty in'.parent_domain
    then err (errorf (text "parent_domain is required for subdomain"))
    else ok tt

-- The interface `Provider`.
pub record Provider : Type 0 where
  pub ensure_root_site : SiteDnsInput → Io (Unit {0})
  pub ensure_subdomain_site : SiteDnsInput → Io (Unit {0})
  pub delete_root_site : SiteDnsInput → Io (Unit {0})
  pub delete_subdomain_site : SiteDnsInput → Io (Unit {0})
  pub get_site_entry : SiteDnsInput → World → (DnsEntry × Option Error) × World
