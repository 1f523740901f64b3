-- ===== src/Sites/Delete/Laws.antt =====
-- What `SiteDelete` of internal/app/site.go leaves of the rows.
use ngm.Base.{
  ◌≡◌, refl, ap, subst, sym, ◌∙◌, Bool, true, false, ◌&&◌, Option, none, some, Result, ok, err,
  Error, is_ok, bind_step, wrap_step, if◌then◌else◌, return, fail, try, wrapping, ◌>>=◌, ◌>>◌, List,
  [], ◌∷◌, Bool-cases, inl, inr,
}
use ngm.Text.{Text, text_eq, is_empty, trim_space}
use ngm.Text.Trim.{trim_space_idem}
use ngm.Dns.{Provider}
use ngm.Store.{Site}
use ngm.Store.Db.{Db}
use ngm.Store.Db.Sites.{site_of_domain, get_site_by_domain, list_sites, delete_site_by_domain}
use ngm.Store.Db.Sites.Laws.{IsKeyed, keyed}
use ngm.Store.Db.Sites.Delete.{delete_site_by_domain-lookup}
use ngm.Sites.Panel.{
  Panel, Act, SiteHost, site_table, KeepsSites, >>=-KeepsSites, return-KeepsSites, fail-KeepsSites,
  lift-KeepsSites, if-KeepsSites, on_files-KeepsSites, on_db-KeepsSites, on_row-KeepsSites, on_db,
}
use ngm.Sites.Add.Prepare.{query-site_table, query_row-site_table}
use ngm.Sites.Checks.{site_dns_input_from_parts}
use ngm.Sites.Add.{ensure_dns}
use ngm.Sites.Delete.{
  site_by_domain, delete_names, delete_dns, reload_if_removed, remove_vhost, restore_dns,
  delete_row, site_delete, has_dependent, parent_of,
}

-- An action that deletes the row of the domain exactly if it returns no error.
record Deletes (d : Text) {A : Type 0} (m : Act A) : Type 0 where
  deletes :
      (p : Panel) (d' : Text)
      → IsKeyed p.db
      → site_of_domain d' (m p).1.db.sites
        ≡ (if is_ok (m p).0 && text_eq d d' then none else site_of_domain d' p.db.sites)

module _ {A B : Type 0} {d : Text} where
  bound_rows :
      (p : Panel) (d' : Text) (f : A → Act B) (x : Result A × Panel)
      → IsKeyed p.db
      → site_table x.1.db ≡ site_table p.db
      → ((a : A) → Deletes d (f a))
      → site_of_domain d' (bind_step x f).1.db.sites
        ≡ (if is_ok (bind_step x f).0 && text_eq d d' then none else site_of_domain d' p.db.sites)
  bound_rows p d' f (ok a, q) keys same k =
      (k a).deletes q d' (ap (λ (t : List Site × _). keyed t.1 t.0) same ∙ keys)
      ∙ ap
          (λ (t : List Site × _).
            if is_ok (f a q).0 && text_eq d d' then none else site_of_domain d' t.0)
          same
  bound_rows p d' f (err e, q) keys same k = ap (λ (t : List Site × _). site_of_domain d' t.0) same

  >>=-Deletes :
      {m : Act A} {f : A → Act B} → KeepsSites m → ((a : A) → Deletes d (f a)) → Deletes d (m >>= f)
  unfolding ◌>>=◌
  >>=-Deletes {m} {f} h k = record {
    deletes = λ p d' keys. bound_rows p d' f (m p) keys (h.kept p) k;
  }

  >>-Deletes : {m : Act A} {f : Act B} → KeepsSites m → Deletes d f → Deletes d (m >> f)
  unfolding ◌>>◌
  >>-Deletes {m} {f} h k = record {
    deletes = λ p d' keys. bound_rows p d' (λ _. f) (m p) keys (h.kept p) (λ _. k);
  }

fail-Deletes : {A : Type 0} (d : Text) (e : Error) → Deletes d (fail {A = A} e)
unfolding fail
fail-Deletes d e = record { deletes = λ p d' keys. refl }

if-Deletes :
    {A : Type 0} {d : Text} (b : Bool) {m n : Act A}
    → Deletes d m
    → Deletes d n
    → Deletes d (if b then m else n)
if-Deletes true h k = h
if-Deletes false h k = k

module _ {A : Type 0} where
  wrap_step-site_table :
      (prefix : Text) (x : Result A × Panel)
      → site_table (wrap_step prefix x).1.db ≡ site_table x.1.db
  wrap_step-site_table prefix (ok a, p) = refl
  wrap_step-site_table prefix (err e, p) = refl

  wrapping-KeepsSites : (prefix : Text) {m : Act A} → KeepsSites m → KeepsSites (wrapping prefix m)
  unfolding wrapping
  wrapping-KeepsSites prefix {m} h = record {
    kept = λ p. wrap_step-site_table prefix (m p) ∙ h.kept p;
  }

  try-KeepsSites : {m : Act A} → KeepsSites m → KeepsSites (try m)
  unfolding try
  try-KeepsSites h = record { kept = λ p. h.kept p }

module _ (host : SiteHost) where
  open host use {fault}

  pub site_by_domain-KeepsSites : (d : Text) → KeepsSites (site_by_domain host d)
  unfolding site_by_domain get_site_by_domain
  site_by_domain-KeepsSites d =
      >>=-KeepsSites (on_row-KeepsSites _ (query_row-site_table fault _)) λ row. lift-KeepsSites _

  delete_names-KeepsSites :
      (dns : Provider) (site : Site) (d parent : Text)
      → KeepsSites (delete_names host dns site d parent)
  unfolding delete_names list_sites
  delete_names-KeepsSites dns site d [] =
      >>=-KeepsSites (on_db-KeepsSites _ (query-site_table fault _)) λ sites.
        if-KeepsSites (has_dependent d sites) (fail-KeepsSites _)
          (wrapping-KeepsSites _ (on_files-KeepsSites _))
  delete_names-KeepsSites dns site d (c ∷ parent) = wrapping-KeepsSites _ (on_files-KeepsSites _)

  delete_dns-KeepsSites :
      (dns : Option Provider) (site : Site) (d : Text) → KeepsSites (delete_dns host dns site d)
  unfolding delete_dns
  delete_dns-KeepsSites none site d = return-KeepsSites tt
  delete_dns-KeepsSites (some dns) site d =
      delete_names-KeepsSites dns site d (parent_of site.parent_domain)

  reload_if_removed-KeepsSites : (r : Result (Unit {0})) → KeepsSites (reload_if_removed host r)
  unfolding reload_if_removed
  reload_if_removed-KeepsSites (ok u) = wrapping-KeepsSites _ (on_files-KeepsSites _)
  reload_if_removed-KeepsSites (err e) =
      if-KeepsSites e.not_exist (return-KeepsSites tt) (fail-KeepsSites _)

  remove_vhost-KeepsSites : (d : Text) → KeepsSites (remove_vhost host d)
  unfolding remove_vhost
  remove_vhost-KeepsSites d =
      >>=-KeepsSites (try-KeepsSites (on_files-KeepsSites _)) reload_if_removed-KeepsSites

  ensure_dns-KeepsSites :
      (dns : Provider) (input : _) (parent : Text) → KeepsSites (ensure_dns host dns input parent)
  unfolding ensure_dns
  ensure_dns-KeepsSites dns input [] = on_files-KeepsSites _
  ensure_dns-KeepsSites dns input (c ∷ parent) = on_files-KeepsSites _

  restore_dns-KeepsSites :
      (dns : Option Provider) (site : Site) (r : Result (Unit {0}))
      → KeepsSites (restore_dns host dns site r)
  unfolding restore_dns
  restore_dns-KeepsSites dns site (ok u) = return-KeepsSites tt
  restore_dns-KeepsSites none site (err e) = fail-KeepsSites e
  restore_dns-KeepsSites (some dns) site (err e) =
      >>=-KeepsSites (try-KeepsSites (ensure_dns-KeepsSites dns _ _))
        λ restored. if-KeepsSites (is_ok restored) (fail-KeepsSites _) (fail-KeepsSites _)

  -- Restoring the records does not hide the error.
  restore_dns-is_ok :
      (dns : Option Provider) (site : Site) (r : Result (Unit {0})) (p : Panel)
      → is_ok (restore_dns host dns site r p).0 ≡ is_ok r
  unfolding restore_dns return fail try ◌>>=◌
  restore_dns-is_ok dns site (ok u) p = refl
  restore_dns-is_ok none site (err e) p = refl
  restore_dns-is_ok (some dns) site (err e) p =
      elim (Bool-cases (
        is_ok
          (ensure_dns host dns
            (site_dns_input_from_parts host site.domain (parent_of site.parent_domain))
            (parent_of site.parent_domain) p).0)) [ inl e ↦ rw e refl | inr e ↦ rw e refl ]

  delete_row-Deletes : (site : Site) (d : Text) → Deletes (trim_space d) (delete_row host site d)
  unfolding delete_row try on_db ◌>>=◌
  delete_row-Deletes site d = record {
    deletes = λ p d' keys.
        let x : Result (Unit {0}) × Db = delete_site_by_domain fault d p.db in
        let q : Panel = record p { db = x.1 } in
        ap (λ (t : List Site × _). site_of_domain d' t.0)
          ((restore_dns-KeepsSites host.dns site x.0).kept q)
        ∙ delete_site_by_domain-lookup fault d d' p.db keys
        ∙ ap (λ b. if b && text_eq (trim_space d) d' then none else site_of_domain d' p.db.sites)
            (sym (restore_dns-is_ok host.dns site x.0 q));
  }

  site_delete-Deletes : (d : Text) → Deletes (trim_space d) (site_delete host d)
  unfolding site_delete
  site_delete-Deletes d = if-Deletes (is_empty (trim_space d)) (fail-Deletes _ _) (
      >>=-Deletes (site_by_domain-KeepsSites _) λ site.
        >>-Deletes (delete_dns-KeepsSites host.dns site _) (
          >>-Deletes (remove_vhost-KeepsSites _) (
            subst (λ name. Deletes name (delete_row host site (trim_space d))) (trim_space_idem d)
              (delete_row-Deletes site (trim_space d)))))

  -- In a table with keys, whatever fails and whatever the DNS provider and nginx do, `SiteDelete`
  -- deletes the row of the domain and no other if it returns no error, and none if it returns one.
  pub site_delete-lookup :
      (d d' : Text) (p : Panel)
      → IsKeyed p.db
      → site_of_domain d' (site_delete host d p).1.db.sites ≡ (
          if is_ok (site_delete host d p).0 && text_eq (trim_space d) d'
          then none
          else site_of_domain d' p.db.sites)
  site_delete-lookup d d' p keys = (site_delete-Deletes d).deletes p d' keys
