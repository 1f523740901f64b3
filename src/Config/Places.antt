-- ===== src/Config/Places.antt =====
-- `ResolvePaths` and `absOrJoin` of internal/config/config.go.
use ngm.Base.{◌≡◌, true, false, [], ◌∷◌, if◌then◌else◌, if_intro}
use ngm.Text.{Text, text, is_empty}
use ngm.Text.Place.{is_abs, join, join-abs}
use ngm.Config.{Config}

pub record Paths : Type 0 where
  pub nginx_root : Text
  pub nginx_bin : Text
  pub nginx_main_conf : Text
  pub nginx_sites_dir : Text
  pub nginx_stage_dir : Text
  pub nginx_backup_dir : Text
  pub nginx_cache_root : Text
  pub nginx_php_fastcgi_cache_dir : Text
  pub nginx_proxy_micro_cache_dir : Text
  pub nginx_proxy_static_cache_dir : Text
  pub certbot_bin : Text
  pub acme_webroot : Text
  pub letsencrypt_live : Text

unfoldable pub abs_or_join : Text → Text → Text
unfolding is_abs join
abs_or_join root [] = []
abs_or_join root (c ∷ p) = if is_abs (c ∷ p) then c ∷ p else join root (c ∷ p)

unfoldable pub resolve_paths : Config → Paths
unfolding abs_or_join join
resolve_paths c = record {
  nginx_root = c.nginx.root;
  nginx_bin = abs_or_join c.nginx.root c.nginx.bin;
  nginx_main_conf = abs_or_join c.nginx.root c.nginx.main_conf;
  nginx_sites_dir = abs_or_join c.nginx.root c.nginx.sites_dir;
  nginx_stage_dir = abs_or_join c.nginx.root c.nginx.apply.staging_dir;
  nginx_backup_dir = abs_or_join c.nginx.root c.nginx.apply.backup_dir;
  nginx_cache_root = c.nginx.cache_root;
  nginx_php_fastcgi_cache_dir = join c.nginx.cache_root (text "php");
  nginx_proxy_micro_cache_dir = join c.nginx.cache_root (text "proxy_micro");
  nginx_proxy_static_cache_dir = join c.nginx.cache_root (text "proxy_static");
  certbot_bin = c.certs.certbot_bin;
  acme_webroot = c.certs.webroot;
  letsencrypt_live = c.certs.letsencrypt_live;
}

pub abs_or_join-abs :
    (root p : Text) → is_abs root ≡ true → is_empty p ≡ false → is_abs (abs_or_join root p) ≡ true
unfolding abs_or_join is_empty
abs_or_join-abs root [] h k = cc
abs_or_join-abs root (c ∷ p) h k =
    if_intro (λ x. is_abs x ≡ true) (is_abs (c ∷ p)) (c ∷ p) (join root (c ∷ p)) (λ e. e)
      (λ _. join-abs root (c ∷ p) h)
