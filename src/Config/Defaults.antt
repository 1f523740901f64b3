-- ===== src/Config/Defaults.antt =====
-- `applyDefaults` of internal/config/config.go, section by section.
use ngm.Base.{Bool, true, false, List, [], ◌∷◌, Option, none, some, if◌then◌else◌}
use ngm.Base.Dict.{lookup, insert}
use ngm.Text.{Text, text, text_eq}
use ngm.Config.{
  Config, NginxConfig, NginxApplyConfig, StorageConfig, DnsConfig, DnsBindConfig, DnsTemplateConfig,
}

-- `if s == "" { s = value }`
unfoldable pub default_to : Text → Text → Text
default_to value [] = value
default_to value (c ∷ s) = c ∷ s

-- `if !b { b = true }`
unfoldable pub default_true : Bool → Bool
default_true false = true
default_true true = true

-- `systemd` says that /run/systemd/system is a directory.
unfoldable pub default_apply : Bool → NginxApplyConfig → NginxApplyConfig
default_apply systemd a = record {
  staging_dir = default_to (text "conf/.staging") a.staging_dir;
  backup_dir = default_to (text "conf/.backup") a.backup_dir;
  test_before_reload = default_true a.test_before_reload;
  reload_mode = default_to (if systemd then text "systemd" else text "signal") a.reload_mode;
}

unfoldable pub default_nginx : Bool → NginxConfig → NginxConfig
default_nginx systemd n = record {
  root = n.root;
  main_conf = default_to (text "conf/nginx.conf") n.main_conf;
  sites_dir = default_to (text "conf/sites") n.sites_dir;
  bin = default_to (text "sbin/nginx") n.bin;
  service_name = default_to (text "nginx") n.service_name;
  cache_root = default_to (text "/var/cache/nginx") n.cache_root;
  user = default_to (text "www-data") n.user;
  group = default_to (text "nobody") n.group;
  apply = default_apply systemd n.apply;
}

unfoldable pub default_storage : StorageConfig → StorageConfig
default_storage s =
    let path = default_to (text "/var/lib/ngm/ngm.db") s.sqlite_path in
    record {
      driver = default_to (text "sqlite") s.driver;
      dsn = default_to (default_to (text "/var/lib/ngm/ngm.db") path) s.dsn;
      sqlite_path = path;
    }

unfoldable pub default_bind : DnsBindConfig → DnsBindConfig
default_bind b = record {
  named_conf_include = default_to (text "/etc/named/ngm-zones.conf") b.named_conf_include;
  zones_dir = default_to (text "/var/named/ngm") b.zones_dir;
  rndc_bin = default_to (text "rndc") b.rndc_bin;
  checkconf_bin = default_to (text "named-checkconf") b.checkconf_bin;
  checkzone_bin = default_to (text "named-checkzone") b.checkzone_bin;
  named_conf_path = default_to (text "/etc/named.conf") b.named_conf_path;
  zone_file_suffix = default_to (text ".zone") b.zone_file_suffix;
}

unfoldable pub default_template : DnsTemplateConfig
default_template = record {
  ttl = 3600;
  soa = record {
    mname = text "ns1.example.net.";
    rname = text "hostmaster.example.net.";
    refresh = 3600;
    retry = 900;
    expire = 1209600;
    minimum = 3600;
  };
  nameservers = text "ns1.example.net." ∷ (text "ns2.example.net." ∷ []);
  records = record { name = text "www"; kind = text "CNAME"; value = text "@"; ttl = 3600 } ∷ [];
}

-- `if _, ok := m[name]; !ok { m[name] = ... }`
unfoldable pub add_template :
    Text
    → Option DnsTemplateConfig
    → List (Text × DnsTemplateConfig)
    → List (Text × DnsTemplateConfig)
add_template name none m = insert text_eq name default_template m
add_template name (some t) m = m

unfoldable pub default_dns : DnsConfig → DnsConfig
default_dns d =
    let name = default_to (text "default") d.default_template in
    record {
      enabled = d.enabled;
      provider = default_to (text "bind") d.provider;
      default_template = name;
      default_ipv4 = d.default_ipv4;
      default_ipv6 = d.default_ipv6;
      bind = default_bind d.bind;
      templates = add_template name (lookup text_eq name d.templates) d.templates;
    }

unfoldable pub apply_defaults : Bool → Config → Config
apply_defaults systemd c = record {
  api = record c.api { listen = default_to (text "127.0.0.1:9601") c.api.listen };
  nginx = default_nginx systemd c.nginx;
  certs = record c.certs {
    mode = default_to (text "certbot") c.certs.mode;
    certbot_bin = default_to (text "certbot") c.certs.certbot_bin;
  };
  phpfpm = record c.phpfpm { default_version = default_to (text "8.4") c.phpfpm.default_version };
  hosting = record {
    home_root = default_to (text "/home") c.hosting.home_root;
    sites_root_name = default_to (text "sites") c.hosting.sites_root_name;
    web_group = default_to (text "www-data") c.hosting.web_group;
  };
  security = record { audit_log = default_to (text "/var/log/ngm/audit.log") c.security.audit_log };
  storage = default_storage c.storage;
  dns = default_dns c.dns;
}
