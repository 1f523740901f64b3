-- ===== src/Scenario/Settings.antt =====
-- A configuration file that is accepted.
use ngm.Base.{true, false, [], ◌∷◌, Option, none}
use ngm.Text.{Text}
use ngm.Config.{Config}
use ngm.Config.Valid.{Parsed, parsed}

abbrev pub letter : Text
letter = b'x' ∷ []

-- No test before a reload, and every network parses.
abbrev pub settings : Config
settings = record {
  api = record { listen = []; hostname = []; tokens = letter ∷ []; allow_ips = letter ∷ [] };
  nginx = record {
    root = b'/' ∷ letter;
    main_conf = [];
    sites_dir = [];
    bin = [];
    service_name = [];
    cache_root = [];
    user = [];
    group = [];
    apply = record {
      staging_dir = [];
      backup_dir = [];
      test_before_reload = false;
      reload_mode = [];
    };
  };
  certs = record {
    mode = [];
    email = [];
    webroot = letter;
    letsencrypt_live = letter;
    certbot_bin = [];
  };
  phpfpm = record { default_version = []; versions = [] };
  hosting = record { home_root = []; sites_root_name = []; web_group = [] };
  security = record { audit_log = [] };
  storage = record { driver = []; dsn = []; sqlite_path = [] };
  dns = record {
    enabled = true;
    provider = [];
    default_template = [];
    default_ipv4 = [];
    default_ipv6 = [];
    bind = record {
      named_conf_include = [];
      zones_dir = [];
      rndc_bin = [];
      checkconf_bin = [];
      checkzone_bin = [];
      named_conf_path = [];
      zone_file_suffix = [];
    };
    templates = [];
  };
}

abbrev pub parse_cidr : Text → Option Text
parse_cidr s = none

abbrev pub decode : Text → Parsed
decode s = parsed settings
