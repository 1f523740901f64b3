-- ===== src/Sites/Edit/Laws.antt =====
-- How `SiteEdit` of internal/app/site.go ends where the database does not fail.
use ngm.Base.{
  ℕ, ◌≡◌, refl, ap, ◌∙◌, false, [], ◌∷◌, Option, none, some, Result, ok, err, is_ok, bind_step,
  ◌==◌, ◌>>=◌,
}
use ngm.Text.{Text, text, text_eq, trim_space}
use ngm.Dns.{Provider}
use ngm.Store.{User, Site, UserLimits}
use ngm.Store.Db.Users.{get_user_by_id}
use ngm.Store.Db.Sites.{upsert_site}
use ngm.Store.Db.Sites.Written.{upsert_site-refused}
use ngm.Sites.Panel.{
  Panel, Act, SiteHost, site_table, on_db, KeepsSites, >>=-KeepsSites, >>-KeepsSites,
  return-KeepsSites, fail-KeepsSites, lift-KeepsSites, if-KeepsSites, on_db-KeepsSites,
  on_row-KeepsSites,
}
use ngm.Sites.Add.Prepare.{
  query_row-site_table, ensure_user-site_table, resolve-KeepsSites, parent_label-KeepsSites,
  check_limits-KeepsSites, when-KeepsSites,
}
use ngm.Sites.Add.Finish.{
  NeverFails, >>-NeverFails, return-NeverFails, try-NeverFails, if-NeverFails,
}
use ngm.Sites.Delete.Laws.{site_by_domain-KeepsSites}
use ngm.Sites.Edit.{
  SiteEditRequest, new_owner, known_owner, limits_if_moved, check_relation, edited,
  write_overrides_of, after_edit, site_edit,
}

module _ (host : SiteHost) where
  open host use {fault}

  new_owner-KeepsSites :
      (name : Text) (id : ℕ) (owner : User) → KeepsSites (new_owner host name id owner)
  unfolding new_owner
  new_owner-KeepsSites [] id owner = return-KeepsSites _
  new_owner-KeepsSites (c ∷ name) id owner =
      >>=-KeepsSites (on_db-KeepsSites _ (ensure_user-site_table fault _ _))
        λ u. return-KeepsSites _

  known_owner-KeepsSites : (id : ℕ) (owner : User) → KeepsSites (known_owner host id owner)
  unfolding known_owner get_user_by_id
  known_owner-KeepsSites id owner =
      if-KeepsSites (owner.id == 0)
        (>>=-KeepsSites (on_row-KeepsSites _ (query_row-site_table fault _))
          λ row. >>=-KeepsSites (lift-KeepsSites _) λ u. return-KeepsSites _)
        (return-KeepsSites _)

  limits_if_moved-KeepsSites :
      (dns : Option Provider) (limits : UserLimits) (id : ℕ) (parent : Text)
      → KeepsSites (limits_if_moved host dns limits id parent)
  unfolding limits_if_moved
  limits_if_moved-KeepsSites none limits id parent = check_limits-KeepsSites host limits id parent
  limits_if_moved-KeepsSites (some dns) limits id parent = fail-KeepsSites _

  check_relation-KeepsSites :
      (req : SiteEditRequest) (cur : Site) (limits : UserLimits) (id : ℕ) (parent : Text)
      → KeepsSites (check_relation host req cur limits id parent)
  unfolding check_relation
  check_relation-KeepsSites req cur limits id parent =
      when-KeepsSites host _ (limits_if_moved-KeepsSites host.dns limits id (trim_space parent))

  -- Whatever fails, the checks of `SiteEdit` leave the rows of the sites.
  pub edited-KeepsSites : (req : SiteEditRequest) → KeepsSites (edited host req)
  unfolding edited get_user_by_id
  edited-KeepsSites req = >>=-KeepsSites (lift-KeepsSites _) λ d.
      >>=-KeepsSites (site_by_domain-KeepsSites host d) λ cur.
        >>=-KeepsSites (on_row-KeepsSites _ (query_row-site_table fault _)) λ row.
          >>=-KeepsSites (new_owner-KeepsSites _ _ _) λ first.
            >>=-KeepsSites (known_owner-KeepsSites first.0 first.1) λ owner.
              >>=-KeepsSites (lift-KeepsSites _) λ mode.
                >>=-KeepsSites (resolve-KeepsSites host owner.0.username) λ limits.
                  >>-KeepsSites (lift-KeepsSites _) (
                    >>=-KeepsSites (lift-KeepsSites _) λ parent. >>-KeepsSites (lift-KeepsSites _) (
                      >>=-KeepsSites (parent_label-KeepsSites host owner.0 d parent) λ label.
                        >>-KeepsSites (check_relation-KeepsSites req cur limits owner.0.id parent)
                          (return-KeepsSites _)))

  write_overrides_of-NeverFails :
      (o : Option Text) (s : Site) (name : Text) → NeverFails (write_overrides_of host o s name)
  unfolding write_overrides_of
  write_overrides_of-NeverFails none s name = return-NeverFails _
  write_overrides_of-NeverFails (some raw) s name =
      if-NeverFails (text_eq s.mode (text "php"))
        (>>-NeverFails (try-NeverFails _) (return-NeverFails _)) (return-NeverFails _)

  after_edit-NeverFails :
      (req : SiteEditRequest) (s : Site) (name : Text) (stored : Site)
      → NeverFails (after_edit host req s name stored)
  unfolding after_edit
  after_edit-NeverFails req s name stored =
      >>-NeverFails (write_overrides_of-NeverFails req.php_ini_overrides s name)
        (>>-NeverFails (try-NeverFails _) (return-NeverFails _))

  written_edit : SiteEditRequest → Site × Text → Act Site
  written_edit req (s, name) = on_db (upsert_site fault s) >>= after_edit host req s name

  after_write :
      (req : SiteEditRequest) (s : Site) (name : Text) (x : Result Site × Panel)
      → is_ok (bind_step x (after_edit host req s name)).0 ≡ false
      → (is_ok x.0 ≡ false) × ((bind_step x (after_edit host req s name)).1 ≡ x.1)
  after_write req s name (ok stored, p) e =
      let fine = (after_edit-NeverFails req s name stored).fine p in cc
  after_write req s name (err e', p) e = (refl, refl)

  module _ (no_fault : (n : ℕ) → fault n ≡ none) where
    written_edit-sites :
        (req : SiteEditRequest) (r : Site × Text) (p : Panel)
        → is_ok (written_edit req r p).0 ≡ false
        → (written_edit req r p).1.db.sites ≡ p.db.sites
    unfolding written_edit on_db ◌>>=◌
    written_edit-sites req (s, name) p e =
        let (r, db) = upsert_site fault s p.db in
        let after = after_write req s name (r, record p { db = db }) e in
        ap (λ q. q.db.sites) after.1 ∙ upsert_site-refused fault no_fault s p.db after.0

    bound_edit :
        (req : SiteEditRequest) (p : Panel) (x : Result (Site × Text) × Panel)
        → site_table x.1.db ≡ site_table p.db
        → is_ok (bind_step x (written_edit req)).0 ≡ false
        → (bind_step x (written_edit req)).1.db.sites ≡ p.db.sites
    bound_edit req p (ok r, q) same e = written_edit-sites req r q e ∙ ap (λ t. t.0) same
    bound_edit req p (err e', q) same e = ap (λ t. t.0) same

    -- Where no call of the database fails, a `SiteEdit` that returns an error changes no row of a site.
    pub site_edit-sites :
        (req : SiteEditRequest) (p : Panel)
        → is_ok (site_edit host req p).0 ≡ false
        → (site_edit host req p).1.db.sites ≡ p.db.sites
    unfolding site_edit written_edit ◌>>=◌
    site_edit-sites req p e =
        bound_edit req p (edited host req p) ((edited-KeepsSites req).kept p) e
