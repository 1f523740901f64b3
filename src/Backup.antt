-- ===== src/Backup.antt =====
-- internal/backup/types.go: what a backup holds, and the options of making one. A time is
-- a number.
pub mod Build
pub mod Gate
pub mod Scope
use ngm.Base.{ℕ, Bool, List, Option}
use ngm.Text.{Text}
use ngm.Store.{UserLimits}

pub record ManifestSubject : Type 0 where
  pub username : Text
  pub user_id : ℕ
  pub reseller_id : ℕ

pub record Manifest : Type 0 where
  pub schema_version : ℕ
  pub created_at : ℕ
  pub node_id : Text
  pub scope : Text
  pub driver : Text
  pub subject : ManifestSubject
  pub include_certs : Bool

pub record PanelUserDump : Type 0 where
  pub username : Text
  pub password_hash : Text
  pub role : Text
  pub enabled : Bool
  pub reseller_name : Text
  pub system_user : Text

pub record UserDump : Type 0 where
  pub username : Text
  pub home_dir : Text

-- The limits are the fields from `MaxDomains` to `CgroupIOMBps`.
pub record PackageDump : Type 0 where
  pub name : Text
  pub limits : UserLimits

pub record UserPackageDump : Type 0 where
  pub username : Text
  pub package_name : Text

pub record SiteDump : Type 0 where
  pub owner_username : Text
  pub domain : Text
  pub parent_domain : Option Text
  pub mode : Text
  pub webroot : Text
  pub php_version : Text
  pub enable_http3 : Bool
  pub enabled : Bool
  pub client_max_body : Text
  pub php_time_read : Text
  pub php_time_send : Text

pub record ProxyTargetDump : Type 0 where
  pub site_domain : Text
  pub target : Text
  pub weight : ℕ
  pub is_backup : Bool
  pub enabled : Bool

pub record Dump : Type 0 where
  pub panel_users : List PanelUserDump
  pub users : List UserDump
  pub packages : List PackageDump
  pub user_packages : List UserPackageDump
  pub sites : List SiteDump
  pub proxy_targets : List ProxyTargetDump

pub record BackupOptions : Type 0 where
  pub scope : Text
  pub username : Text
  pub include_certs : Bool
  pub node_id : Text
  pub driver : Text
  pub home_root : Text
  pub certs_root : Text
  pub now : ℕ
