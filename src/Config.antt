-- ===== src/Config.antt =====
-- internal/config/config.go: the configuration, the directories made of it, and reading it. A map is
-- an association list, so a nil map and an empty one are the same; a uint32 is a number.
pub mod Defaults
pub mod Stable
pub mod Given
pub mod Valid
pub mod Places
use ngm.Base.{ℕ, Bool, List}
use ngm.Text.{Text}

pub record NginxApplyConfig : Type 0 where
  pub staging_dir : Text
  pub backup_dir : Text
  pub test_before_reload : Bool
  pub reload_mode : Text

pub record NginxConfig : Type 0 where
  pub root : Text
  pub main_conf : Text
  pub sites_dir : Text
  pub bin : Text
  pub service_name : Text
  pub cache_root : Text
  pub user : Text
  pub group : Text
  pub apply : NginxApplyConfig

pub record ApiConfig : Type 0 where
  pub listen : Text
  pub hostname : Text
  pub tokens : List Text
  pub allow_ips : List Text

pub record CertsConfig : Type 0 where
  pub mode : Text
  pub email : Text
  pub webroot : Text
  pub letsencrypt_live : Text
  pub certbot_bin : Text

pub record PhpFpmVersion : Type 0 where
  pub pools_dir : Text
  pub service : Text
  pub sock_dir : Text

pub record PhpFpmConfig : Type 0 where
  pub default_version : Text
  pub versions : List (Text × PhpFpmVersion)

pub record HostingConfig : Type 0 where
  pub home_root : Text
  pub sites_root_name : Text
  pub web_group : Text

pub record SecurityConfig : Type 0 where
  pub audit_log : Text

pub record StorageConfig : Type 0 where
  pub driver : Text
  pub dsn : Text
  pub sqlite_path : Text

pub record DnsSoaConfig : Type 0 where
  pub mname : Text
  pub rname : Text
  pub refresh : ℕ
  pub retry : ℕ
  pub expire : ℕ
  pub minimum : ℕ

pub record DnsRecordTemplate : Type 0 where
  pub name : Text
  pub kind : Text
  pub value : Text
  pub ttl : ℕ

pub record DnsTemplateConfig : Type 0 where
  pub ttl : ℕ
  pub soa : DnsSoaConfig
  pub nameservers : List Text
  pub records : List DnsRecordTemplate

pub record DnsBindConfig : Type 0 where
  pub named_conf_include : Text
  pub zones_dir : Text
  pub rndc_bin : Text
  pub checkconf_bin : Text
  pub checkzone_bin : Text
  pub named_conf_path : Text
  pub zone_file_suffix : Text

pub record DnsConfig : Type 0 where
  pub enabled : Bool
  pub provider : Text
  pub default_template : Text
  pub default_ipv4 : Text
  pub default_ipv6 : Text
  pub bind : DnsBindConfig
  pub templates : List (Text × DnsTemplateConfig)

pub record Config : Type 0 where
  pub api : ApiConfig
  pub nginx : NginxConfig
  pub certs : CertsConfig
  pub phpfpm : PhpFpmConfig
  pub hosting : HostingConfig
  pub security : SecurityConfig
  pub storage : StorageConfig
  pub dns : DnsConfig
