-- ===== src/Store.antt =====
-- internal/store/store.go: the rows that the application reads and writes, and the part of the
-- `SiteStore` interface that the apply pipeline calls. A time is a number of ticks.
pub mod PanelUsers
pub mod Db
use ngm.Base.{ℕ, Bool, Option, List, [], Result}
use ngm.Text.{Text}

pub record User : Type 0 where
  pub id : ℕ
  pub username : Text
  pub home_dir : Text
  pub created_at : ℕ

pub record Site : Type 0 where
  pub id : ℕ
  pub user_id : ℕ
  pub domain : Text
  pub parent_domain : Option Text
  pub mode : Text
  pub webroot : Text
  pub php_version : Text
  pub enable_http3 : Bool
  pub enabled : Bool
  pub client_max_body_size : Text
  pub php_time_read : Text
  pub php_time_send : Text
  pub created_at : ℕ
  pub updated_at : ℕ
  pub last_render_hash : Text
  pub last_applied_at : Option ℕ
  pub last_apply_status : Text
  pub last_apply_error : Text

-- A store as `Apply` sees it. `update_apply_result` is there if the store implements
-- `applyResultUpdater`; its callers drop its error.
pub record SiteStore : Type 1 where
  pub State : Type 0
  pub list_sites : State → Result (List Site)
  pub get_site_by_domain : Text → State → Result Site
  pub update_apply_result : Option (Text → Text → Text → Text → State → State)

pub record PanelUser : Type 0 where
  pub id : ℕ
  pub username : Text
  pub password_hash : Text
  pub role : Text
  pub enabled : Bool
  pub reseller_id : Option ℕ
  pub system_user : Text
  pub failed_attempts : ℕ
  pub locked_until : Option ℕ
  pub created_by : Option ℕ
  pub owner_id : Option ℕ
  pub last_login_at : Option ℕ
  pub created_at : ℕ
  pub updated_at : ℕ

-- A limit: -1 is none.
pub data ℤ : Type 0 where
  pos : ℕ → ℤ
  negsuc : ℕ → ℤ

pub record UserLimits : Type 0 where
  pub max_domains : ℤ
  pub max_subdomains : ℤ
  pub max_disk_mb : ℤ
  pub max_bandwidth_gb : ℤ
  pub php_versions : List Text
  pub max_php_workers : ℤ
  pub max_mysql_dbs : ℤ
  pub max_mysql_users : ℤ
  pub max_email_accts : ℤ
  pub max_users : ℤ
  pub cgroup_cpu_pct : ℤ
  pub cgroup_mem_mb : ℤ
  pub cgroup_io_mbps : ℤ

unfoldable pub limits_of : ℤ → UserLimits
limits_of n = record {
  max_domains = n;
  max_subdomains = n;
  max_disk_mb = n;
  max_bandwidth_gb = n;
  php_versions = [];
  max_php_workers = n;
  max_mysql_dbs = n;
  max_mysql_users = n;
  max_email_accts = n;
  max_users = n;
  cgroup_cpu_pct = n;
  cgroup_mem_mb = n;
  cgroup_io_mbps = n;
}

unfoldable pub unlimited_limits : UserLimits
unlimited_limits = limits_of (negsuc 0)

unfoldable pub zero_limits : UserLimits
zero_limits = limits_of (pos 0)

-- The limits are the fields of `Package` from `MaxDomains` to `CgroupIOMBps`.
pub record Package : Type 0 where
  pub id : ℕ
  pub name : Text
  pub created_by : Option ℕ
  pub limits : UserLimits
  pub created_at : ℕ
  pub updated_at : ℕ

-- The row of an assignment; `GetUserPackage` adds the package.
pub record UserPackage : Type 0 where
  pub id : ℕ
  pub user_id : ℕ
  pub package_id : ℕ
  pub assigned_by : Option ℕ
  pub assigned_at : ℕ
