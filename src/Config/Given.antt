-- ===== src/Config/Given.antt =====
-- The configuration that `applyDefaults` of internal/config/config.go should make of one that is read.
use ngm.Base.{◌≡◌, refl, Bool, true, false, [], ◌∷◌, if◌then◌else◌}
use ngm.Text.{Text, text, is_empty}
use ngm.Config.{Config}
use ngm.Config.Defaults.{
  default_to, default_true, default_apply, default_nginx, default_storage, default_bind,
  default_dns, apply_defaults,
}
use ngm.Config.Stable.{default_to_idem}

-- What is given, or the value where it is blank.
abbrev pub given_or : Text → Text → Text
given_or value given = if is_empty given then value else given

-- The configuration has what the one that is read gives, and where that is blank the documented value:
-- under systemd nginx is reloaded by it, else by a signal. The tests of nginx are always on.
abbrev pub IsGiven : Bool → Config → Config → Type 0
IsGiven systemd c0 c =
    (c.api ≡ record c0.api { listen = given_or (text "127.0.0.1:9601") c0.api.listen })
    × (c.nginx ≡ record c0.nginx {
      main_conf = given_or (text "conf/nginx.conf") c0.nginx.main_conf;
      sites_dir = given_or (text "conf/sites") c0.nginx.sites_dir;
      bin = given_or (text "sbin/nginx") c0.nginx.bin;
      service_name = given_or (text "nginx") c0.nginx.service_name;
      cache_root = given_or (text "/var/cache/nginx") c0.nginx.cache_root;
      user = given_or (text "www-data") c0.nginx.user;
      group = given_or (text "nobody") c0.nginx.group;
      apply = record {
        staging_dir = given_or (text "conf/.staging") c0.nginx.apply.staging_dir;
        backup_dir = given_or (text "conf/.backup") c0.nginx.apply.backup_dir;
        test_before_reload = true;
        reload_mode =
            given_or (if systemd then text "systemd" else text "signal") c0.nginx.apply.reload_mode;
      };
    })
    × (c.certs ≡ record c0.certs {
      mode = given_or (text "certbot") c0.certs.mode;
      certbot_bin = given_or (text "certbot") c0.certs.certbot_bin;
    })
    × (c.phpfpm
        ≡ record c0.phpfpm { default_version = given_or (text "8.4") c0.phpfpm.default_version })
    × (c.hosting ≡ record {
      home_root = given_or (text "/home") c0.hosting.home_root;
      sites_root_name = given_or (text "sites") c0.hosting.sites_root_name;
      web_group = given_or (text "www-data") c0.hosting.web_group;
    })
    × (c.security
        ≡ record { audit_log = given_or (text "/var/log/ngm/audit.log") c0.security.audit_log })
    × (c.storage ≡ record {
      driver = given_or (text "sqlite") c0.storage.driver;
      sqlite_path = given_or (text "/var/lib/ngm/ngm.db") c0.storage.sqlite_path;
      dsn = given_or (given_or (text "/var/lib/ngm/ngm.db") c0.storage.sqlite_path) c0.storage.dsn;
    })
    × (c.dns.provider ≡ given_or (text "bind") c0.dns.provider)
    × (c.dns.default_template ≡ given_or (text "default") c0.dns.default_template)
    × (c.dns.bind ≡ record {
      named_conf_include =
          given_or (text "/etc/named/ngm-zones.conf") c0.dns.bind.named_conf_include;
      zones_dir = given_or (text "/var/named/ngm") c0.dns.bind.zones_dir;
      rndc_bin = given_or (text "rndc") c0.dns.bind.rndc_bin;
      checkconf_bin = given_or (text "named-checkconf") c0.dns.bind.checkconf_bin;
      checkzone_bin = given_or (text "named-checkzone") c0.dns.bind.checkzone_bin;
      named_conf_path = given_or (text "/etc/named.conf") c0.dns.bind.named_conf_path;
      zone_file_suffix = given_or (text ".zone") c0.dns.bind.zone_file_suffix;
    })

default_to-given_or : (value s : Text) → default_to value s ≡ given_or value s
unfolding default_to is_empty
default_to-given_or value [] = refl
default_to-given_or value (c ∷ s) = refl

always_on : (b : Bool) → default_true b ≡ true
unfolding default_true
always_on true = refl
always_on false = refl

pub apply_defaults-IsGiven :
    (systemd : Bool) (c0 : Config) → IsGiven systemd c0 (apply_defaults systemd c0)
unfolding apply_defaults default_nginx default_apply default_storage default_dns default_bind
apply_defaults-IsGiven systemd c0 = (
  simp (default_to-given_or) refl,
  simp (default_to-given_or, always_on) refl,
  simp (default_to-given_or) refl,
  simp (default_to-given_or) refl,
  simp (default_to-given_or) refl,
  simp (default_to-given_or) refl,
  simp (default_to_idem) (simp (default_to-given_or) refl),
  simp (default_to-given_or) refl,
  simp (default_to-given_or) refl,
  simp (default_to-given_or) refl,
)
