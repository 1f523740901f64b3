-- ===== src/Sites/Delete.antt =====
-- `SiteDisable`, `SiteEnable`, `SiteGet` and `SiteDelete` of internal/app/site.go.
pub mod Laws
use ngm.Base.{
  Bool, true, false, ◌&&◌, ◌||◌, List, [], ◌∷◌, ◌++◌, Option, none, some, Result, ok, err, errorf,
  wrap, wrapping, if◌then◌else◌, is_ok, return, fail, try, ◌>>=◌, ◌>>◌,
}
use ngm.Text.{Text, text, is_empty, trim_space, to_lower}
use ngm.Dns.{Provider}
use ngm.Nginx.{remove_live_site}
use ngm.Nginx.Control.{reload}
use ngm.Store.{Site}
use ngm.Store.Db.{to_result}
use ngm.Store.Db.Sites.{
  get_site_by_domain, list_sites, delete_site_by_domain, disable_site_by_domain,
  enable_site_by_domain,
}
use ngm.Sites.{equal_fold}
use ngm.Sites.Panel.{Panel, Act, SiteHost, on_db, on_row, on_files, lift}
use ngm.Sites.Checks.{site_dns_input_from_parts}
use ngm.Sites.Add.{ensure_dns}

-- The parent of a row, blank for a root domain.
unfoldable pub parent_of : Option Text → Text
parent_of none = []
parent_of (some parent) = trim_space parent

unfoldable pub has_dependent : Text → List Site → Bool
has_dependent domain [] = false
has_dependent domain (s ∷ ss) = is_dependent s.parent_domain || has_dependent domain ss
  where
    is_dependent : Option Text → Bool
    is_dependent none = false
    is_dependent (some parent) = equal_fold (trim_space parent) domain

module _ (host : SiteHost) where
  open host use {fault, env, manager}

  unfoldable pub site_by_domain : Text → Act Site
  site_by_domain domain = do row ← on_row (get_site_by_domain fault domain); lift (to_result row)

  unfoldable pub site_disable : Text → Act (Unit {0})
  site_disable domain =
      if is_empty (to_lower (trim_space domain))
      then fail (errorf (text "domain is required"))
      else on_db (disable_site_by_domain fault (to_lower (trim_space domain)))

  unfoldable pub site_enable : Text → Act Site
  site_enable domain =
      if is_empty (trim_space domain) then fail (errorf (text "domain is required")) else do
        on_db (enable_site_by_domain fault (trim_space domain))
        site_by_domain (trim_space domain)

  unfoldable pub site_get : Text → Act Site
  site_get domain =
      if is_empty (to_lower (trim_space domain))
      then fail (errorf (text "domain is required"))
      else site_by_domain (to_lower (trim_space domain))

  -- A root domain keeps its zone while a subdomain of it is there.
  unfoldable pub delete_names : Provider → Site → Text → Text → Act (Unit {0})
  delete_names dns site domain [] = do
    sites ← on_db (list_sites fault)
    (if has_dependent domain sites
        then fail (errorf (text "cannot delete root domain: a dependent subdomain site exists"))
        else wrapping (text "dns delete root site: ")
            (on_files (dns.delete_root_site (site_dns_input_from_parts host site.domain []))))
  delete_names dns site domain (c ∷ parent) = wrapping (text "dns delete subdomain site: ") (
      on_files
        (dns.delete_subdomain_site (site_dns_input_from_parts host site.domain (c ∷ parent))))

  unfoldable pub delete_dns : Option Provider → Site → Text → Act (Unit {0})
  delete_dns none site domain = return tt
  delete_dns (some dns) site domain = delete_names dns site domain (parent_of site.parent_domain)

  unfoldable pub reload_if_removed : Result (Unit {0}) → Act (Unit {0})
  reload_if_removed (ok u) = wrapping (text "nginx reload: ") (on_files (reload env manager))
  reload_if_removed (err e) =
      if e.not_exist then return tt else fail (wrap (text "remove live vhost: ") e)

  unfoldable pub remove_vhost : Text → Act (Unit {0})
  remove_vhost domain = do
    removed ← try (on_files (remove_live_site env domain))
    reload_if_removed removed

  -- The records come back if the row could not be deleted.
  unfoldable pub restore_dns : Option Provider → Site → Result (Unit {0}) → Act (Unit {0})
  restore_dns dns site (ok u) = return tt
  restore_dns none site (err e) = fail e
  restore_dns (some dns) site (err e) = do
    restored ← try (
        ensure_dns host dns
          (site_dns_input_from_parts host site.domain (parent_of site.parent_domain))
          (parent_of site.parent_domain))
    (if is_ok restored then fail e else fail (errorf (text "delete site row: dns restore failed")))

  unfoldable pub delete_row : Site → Text → Act (Unit {0})
  delete_row site domain = do
    deleted ← try (on_db (delete_site_by_domain fault domain))
    restore_dns host.dns site deleted

  unfoldable pub site_delete : Text → Act (Unit {0})
  site_delete domain =
      if is_empty (trim_space domain) then fail (errorf (text "domain is required")) else do
        site ← site_by_domain (trim_space domain)
        delete_dns host.dns site (trim_space domain)
        remove_vhost (trim_space domain)
        delete_row site (trim_space domain)
