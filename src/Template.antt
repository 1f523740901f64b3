-- ===== src/Template.antt =====
-- `buildTemplateData` of internal/app/template.go: the data of a site's configuration file, the pool of
-- a PHP site and the certificate that stands in for a missing one. What openssl prints is left out
-- of the error; the modes of the files are left out.
pub mod Pool
pub mod Laws
pub mod Served
use ngm.Base.{
  ℕ, Bool, true, false, ◌&&◌, List, [], ◌∷◌, ◌++◌, Option, none, some, Error, Result, ok, err,
  errorf, wrap, if◌then◌else◌, return, fail, try, wrapping, is_ok, ◌>>=◌, ◌>>◌,
}
use ngm.Text.{Text, text, text_eq, is_empty, trim_space}
use ngm.Text.Place.{join, dir}
use ngm.Os.Paths.{FilePath, other}
use ngm.Os.{Env, CmdResult, Io, World, call, stat, tick, put}
use ngm.Config.{Config}
use ngm.Config.Places.{Paths}
use ngm.Nginx.{CacheCfg, FastCgiCfg, ProxyCfg, UpstreamTarget, SiteTemplateData}
use ngm.Store.{Site}
use Pool.{PoolStore, SitePools, php_pass}

abbrev pub cache : Text → Text → CacheCfg
cache zone ttl = record { enabled = true; zone = zone; ttl200 = ttl }

abbrev pub no_cache : CacheCfg
no_cache = record { enabled = false; zone = []; ttl200 = [] }

-- `s.Mode == "" || s.Mode == "php"`
unfoldable pub is_php : Text → Bool
is_php [] = true
is_php (c ∷ mode) = text_eq (c ∷ mode) (text "php")

-- A blank setting means the default.
unfoldable pub setting_or : Text → Text → Text
setting_or setting default' = if is_empty (trim_space setting) then default' else trim_space setting

-- The zero value of Go.
abbrev pub no_php : FastCgiCfg
no_php = record { pass = []; cache = no_cache; time_read = []; time_send = [] }

abbrev pub no_proxy : ProxyCfg
no_proxy = record {
  lb = [];
  targets = [];
  websockets = false;
  pass_host = false;
  time_connect = [];
  time_read = [];
  time_send = [];
  microcache = no_cache;
  static_cache = no_cache;
}

unfoldable pub php_cfg : Site → Text → FastCgiCfg
php_cfg s pass =
    if is_php s.mode
    then record {
      pass = pass;
      cache = cache (text "php_cache") (text "15s");
      time_read = setting_or s.php_time_read (text "60s");
      time_send = setting_or s.php_time_send (text "60s");
    }
    else no_php

unfoldable pub proxy_cfg : List UpstreamTarget → ProxyCfg
proxy_cfg targets = record {
  lb = text "least_conn";
  targets = targets;
  websockets = false;
  pass_host = true;
  time_connect = text "3s";
  time_read = text "60s";
  time_send = text "60s";
  microcache = cache (text "proxy_micro") (text "15s");
  static_cache = cache (text "proxy_static") (text "30d");
}

-- What openssl leaves at the paths of its options -keyout and -out; `none` leaves the file alone.
pub record Issued : Type 0 where
  pub outcome : CmdResult
  pub key : Option Text
  pub cert : Option Text

unfoldable pub put_issued : FilePath → Option Text → World → World
put_issued p none w = w
put_issued p (some content) w = put p (some content) w

module _ (env : Env) where
  unfoldable pub file_exists : Text → Io Bool
  file_exists p w = let (r, w') = stat env (other p) w in (ok (is_ok r), w')

  -- `fileExists(a) && fileExists(b)`: the second is asked only if the first is there.
  unfoldable pub both_exist : Text → Text → Io Bool
  both_exist a b = do there ← file_exists a; if there then file_exists b else return false

  unfoldable pub made : Text → Text → Option Error → Io (Unit {0})
  made cert key (some e) = fail (wrap (text "generate self-signed cert failed: ") e)
  made cert key none = do try (call env); try (call env); return tt

  unfoldable pub generate : (ℕ → List Text → Issued) → Text → Text → Text → Io (Unit {0})
  generate openssl domain cert key w =
      let res = openssl w.clock (
        text "openssl"
        ∷ text "req"
        ∷ text "-x509"
        ∷ text "-nodes"
        ∷ text "-newkey"
        ∷ text "rsa:2048"
        ∷ text "-days"
        ∷ text "7"
        ∷ text "-subj"
        ∷ (text "/CN=" ++ domain)
        ∷ text "-keyout"
        ∷ key
        ∷ text "-out"
        ∷ cert
        ∷ []) in
      made cert key res.outcome.failure
        (put_issued (other cert) res.cert (put_issued (other key) res.key (tick w)))

  unfoldable pub generate_unless :
      Bool → (ℕ → List Text → Issued) → Text → Text → Text → Io (Unit {0})
  generate_unless true openssl domain cert key = return tt
  generate_unless false openssl domain cert key = do
    wrapping (text "mkdir cert dir: ") (call env)
    wrapping (text "mkdir key dir: ") (call env)
    generate openssl domain cert key

  unfoldable pub ensure_self_signed_cert :
      (ℕ → List Text → Issued) → Text → Text → Text → Io (Unit {0})
  ensure_self_signed_cert openssl domain cert key = do
    there ← both_exist cert key
    generate_unless there openssl domain cert key

-- The rest of the program, as `buildTemplateData` meets it.
pub record Builder (State : Type 0) : Type 0 where
  pub pools : SitePools
  pub paths : Paths
  pub openssl : ℕ → List Text → Issued
  pub store : PoolStore State
  -- The store's `ListProxyTargetsBySiteID`, if it has one.
  pub proxy_lister : Option (ℕ → State → Result (List UpstreamTarget))

module _ {State : Type 0} (b : Builder State) where
  open b use {paths}

  -- The certificate and its key: those of certbot, or else self-signed ones.
  unfoldable pub tls_or_fallback : Bool → Text → Io (Text × Text)
  tls_or_fallback true domain = return (
    join (join paths.letsencrypt_live domain) (text "fullchain.pem"),
    join (join paths.letsencrypt_live domain) (text "privkey.pem"),
  )
  tls_or_fallback false domain =
      let root = join (join (join paths.nginx_root (text "conf")) (text "selfsigned")) domain in
      let cert = join root (text "fullchain.pem") in
      let key = join root (text "privkey.pem") in
      do ensure_self_signed_cert b.pools.env b.openssl domain cert key; return (cert, key)

  unfoldable pub tls_files : Text → Io (Text × Text)
  tls_files domain = do
    there ←
        both_exist b.pools.env (join (join paths.letsencrypt_live domain) (text "fullchain.pem"))
          (join (join paths.letsencrypt_live domain) (text "privkey.pem"))
    tls_or_fallback there domain

  unfoldable pub some_targets : Result (List UpstreamTarget) → Io ProxyCfg
  some_targets (err e) = fail (wrap (text "load proxy targets: ") e)
  some_targets (ok []) = fail (errorf (text "proxy mode requires at least 1 proxy target"))
  some_targets (ok (t ∷ ts)) = return (proxy_cfg (t ∷ ts))

  unfoldable pub listed :
      Option (ℕ → State → Result (List UpstreamTarget)) → ℕ → State → Io ProxyCfg
  listed none id db =
      fail (errorf (text "proxy mode requires sqlite store (to load proxy targets)"))
  listed (some list) id db = some_targets (list id db)

  unfoldable pub proxy_of : Site → State → Io ProxyCfg
  proxy_of s db =
      if text_eq s.mode (text "proxy") then listed b.proxy_lister s.id db else return no_proxy

  unfoldable pub data_of : Site → Text → Text → Text × Text → ProxyCfg → SiteTemplateData
  data_of s domain pass tls proxy = record {
    domain = domain;
    mode = s.mode;
    webroot = s.webroot;
    acme_webroot = paths.acme_webroot;
    enable_http3 = s.enable_http3;
    tls_cert = tls.0;
    tls_key = tls.1;
    front_controller = true;
    client_max_body_size = setting_or s.client_max_body_size (text "32M");
    access_log = join (join (dir s.webroot) (text "logs")) (text "access.log");
    error_log = join (join (dir s.webroot) (text "logs")) (text "error.log");
    php = php_cfg s pass;
    proxy = proxy;
    upstream_key = [];
  }

  unfoldable pub build_template_data : Site → Text → State → Io SiteTemplateData
  build_template_data s domain db = do
    pass ← if is_php s.mode then php_pass b.pools b.store s domain db else return []
    tls ← tls_files domain
    proxy ← proxy_of s db
    return (data_of s domain pass tls proxy)
