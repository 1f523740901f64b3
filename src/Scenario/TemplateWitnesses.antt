-- ===== src/Scenario/TemplateWitnesses.antt =====
-- The theorems on the data of a site, at a PHP site whose pool is new and that has no certificate.
use ngm.Base.{
  refl, true, [], ◌∷◌, ◌++◌, none, some, ok, err, errorf, ◌>>=◌, ◌>>◌, return, fail, try, wrapping,
}
use ngm.Base.Dict.{lookup}
use ngm.Text.{Text, text, text_eq, is_empty, trim_space, split, to_lower}
use ngm.Text.Place.{dir, join, up_to_slash}
use ngm.Os.{
  Env, call, found, read_file, stat, mkdir_all, write_file_atomic, discard_on_error,
  fill_and_rename, fill_temp, rename,
}
use ngm.Config.{Config, PhpFpmVersion}
use ngm.Config.Places.{Paths, resolve_paths}
use ngm.Names.{pool_file_path, socket_path}
use ngm.Store.{Site}
use ngm.Ini.{infer_user_from_webroot, behind, first_part, first_part_behind}
use ngm.Fpm.{
  ensure_pool, with_content, with_socket, compared, same_as, pool_written, pool_reloaded,
  reload_service, write_pool_file_atomic, make_log_dir,
}
use ngm.Apply.One.Frame.{BuildsFor}
use ngm.Nginx.{SiteTemplateData}
use ngm.Template.{
  Builder, Issued, build_template_data, is_php, data_of, php_cfg, no_proxy, tls_files, both_exist,
  file_exists, tls_or_fallback, ensure_self_signed_cert, generate_unless, generate, put_issued,
  made, proxy_of, setting_or,
}
use ngm.Template.Pool.{
  php_pass, with_version, with_user, with_pool, pass_of, pool_of, pool_data, dots_to_underscores,
  max_children, children_of_owner, overrides_of,
}
use ngm.Template.Laws.{template_host, build_template_data-BuildsFor, fallback}
use ngm.Template.Served.{Served, build_template_data-Served}
use ngm.Scenario.{broken_nginx, host, listed, site_a, site_row, world}
use ngm.Scenario.Settings.{settings}

-- Every command succeeds.
abbrev working : Env
working = record broken_nginx {
  run = λ n argv files. record { stdout = []; stderr = []; failure = none };
}

abbrev pools_dir : Text
pools_dir = b'/' ∷ b'p' ∷ []

abbrev version : PhpFpmVersion
version = record { pools_dir = pools_dir; service = pools_dir; sock_dir = pools_dir }

abbrev hosting : Config
hosting = record settings {
  hosting = record { home_root = b'/' ∷ b'h' ∷ []; sites_root_name = []; web_group = [] };
  phpfpm = record { default_version = []; versions = (b'8' ∷ [], version) ∷ [] };
}

abbrev places : Paths
unfolding resolve_paths
places = resolve_paths hosting

abbrev issued : Issued
issued = record {
  outcome = record { stdout = []; stderr = []; failure = none };
  key = some (b'k' ∷ []);
  cert = some (b'c' ∷ []);
}

-- No owner is in the table of panel users, and there are no proxy targets.
abbrev builder : Builder listed.State
builder = record {
  pools = record { env = working; cfg = hosting; render = λ td. ok td.run_user };
  paths = places;
  openssl = λ n argv. issued;
  store = record {
    get_panel_user_by_username = λ name db. err (errorf []);
    get_effective_limits = λ id role db. err (errorf []);
  };
  proxy_lister = none;
}

build_template_data-BuildsFor_example : BuildsFor (template_host host builder)
build_template_data-BuildsFor_example = build_template_data-BuildsFor host builder

abbrev php_site : Site
php_site = record (site_row site_a true) {
  php_version = b'8' ∷ [];
  webroot = b'/' ∷ b'h' ∷ b'/' ∷ b'e' ∷ b'v' ∷ b'e' ∷ b'/' ∷ b'w' ∷ [];
}

-- What is made of it, with the self-signed certificate.
abbrev made_data : SiteTemplateData
unfolding data_of php_cfg
made_data =
    data_of builder php_site site_a
      (text "unix:" ++ socket_path version.sock_dir site_a php_site.php_version)
      (fallback builder site_a (text "fullchain.pem"), fallback builder site_a (text "privkey.pem"))
      no_proxy

build_template_data-Served_example :
    Served builder.pools builder.store php_site site_a [] version made_data.php.pass
      (build_template_data builder php_site site_a [] world).1.files
unfolding text is_php lookup text_eq join places pool_file_path to_lower trim_space made_data
    build_template_data ◌>>=◌ ◌>>◌ return fail try wrapping php_pass with_version with_user
    with_pool pass_of infer_user_from_webroot first_part_behind behind first_part ensure_pool
    with_content compared same_as pool_written pool_reloaded reload_service write_pool_file_atomic
    make_log_dir with_socket socket_path dir read_file call found stat mkdir_all write_file_atomic
    discard_on_error fill_and_rename fill_temp rename tls_files both_exist file_exists
    tls_or_fallback ensure_self_signed_cert generate_unless generate put_issued made proxy_of
    data_of php_cfg is_empty pool_of pool_data dots_to_underscores max_children children_of_owner
    overrides_of setting_or split up_to_slash
build_template_data-Served_example =
    build_template_data-Served builder php_site site_a [] version world made_data refl refl refl
      refl refl
