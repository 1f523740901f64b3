-- ===== src/Sites/Overrides.antt =====
-- The php.ini overrides of a site in internal/app/site.go: a file beside the webroot.
use ngm.Base.{[], ◌∷◌, ◌++◌, Result, ok, err, if◌then◌else◌, return, fail, try, ◌>>=◌, ◌>>◌}
use ngm.Text.{Text, text, trim_space, unix_lines}
use ngm.Text.Place.{join, dir}
use ngm.Os.Paths.{other}
use ngm.Os.{Io, read_file, remove, mkdir_all, write_file_atomic}
use ngm.Sites.Panel.{SiteHost}

unfoldable pub php_overrides_path_from_webroot : Text → Text
php_overrides_path_from_webroot webroot = join (join (dir webroot) (text "php")) (text "php.ini")

module _ (host : SiteHost) where
  open host use {env, chown_path}

  unfoldable pub empty_if_missing : Result Text → Io Text
  empty_if_missing (ok b) = return b
  empty_if_missing (err e) = if e.not_exist then return [] else fail e

  -- `ReadPHPOverridesFile`
  unfoldable pub read_php_overrides_file : Text → Io Text
  read_php_overrides_file webroot = do
    found ← try (read_file env (other (php_overrides_path_from_webroot webroot)))
    empty_if_missing found

  unfoldable pub unless_missing : Result (Unit {0}) → Io (Unit {0})
  unless_missing (ok u) = return tt
  unless_missing (err e) = if e.not_exist then return tt else fail e

  unfoldable pub write_overrides : Text → Text → Text → Text → Io (Unit {0})
  write_overrides p owner group [] = do removed ← try (remove env (other p)); unless_missing removed
  write_overrides p owner group (c ∷ raw) = do
    mkdir_all env (dir p)
    try (chown_path (dir p) owner group)
    write_file_atomic env (other p) ((c ∷ raw) ++ (b'\n' ∷ []))
    try (chown_path p owner group)
    return tt

  -- `writePHPOverridesFile`: blank overrides remove the file.
  unfoldable pub write_php_overrides_file : Text → Text → Text → Text → Io (Unit {0})
  write_php_overrides_file webroot owner group raw =
      write_overrides (php_overrides_path_from_webroot webroot) owner group
        (trim_space (unix_lines raw))
