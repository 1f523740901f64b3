-- ===== src/Sites/Add/Laws.antt =====
-- How `SiteAdd` of internal/app/site.go ends where the database does not fail.
use ngm.Base.{
  ℕ, ◌≡◌, refl, ap, subst, sym, ◌∙◌, true, false, List, [], ◌∷◌, Option, none, some, Result, ok,
  err, Error, is_ok, Bool-cases, inl, inr, ◌⊎◌, if◌then◌else◌, return, fail, try, bind_step, ◌>>=◌,
  ◌>>◌,
}
use ngm.Text.{Text, text_eq, trim_space}
use ngm.Text.Laws.{text_eq_iff}
use ngm.Text.Trim.{trim_space-to_lower-trim_space}
use ngm.Dns.{Provider}
use ngm.Store.{Site}
use ngm.Store.Db.{Db, no_rows, of_option, tick_db}
use ngm.Store.Db.Done.{query_row-done, delete_site_by_domain-done}
use ngm.Store.Db.Sites.{site_of_domain, with_mode, get_site_by_domain, upsert_site}
use ngm.Store.Db.Sites.Laws.{IsKeyed, keyed}
use ngm.Store.Db.Sites.Insert.{
  added, added-row, added-lookup, added-IsKeyed, upsert_site-cases, with_mode-domain,
}
use ngm.Store.Db.Sites.Delete.{delete_site_by_domain-lookup}
use ngm.Apply.{normalize_domain}
use ngm.Sites.Panel.{Panel, Act, SiteHost, on_db, on_row, on_files, lift, site_table}
use ngm.Sites.Checks.{SiteAddRequest, prepare, is_new, site_dns_input_from_parts}
use ngm.Sites.Add.{SiteAddResult, site_add, add_row, finish, with_dns, compensate, ensure_dns}
use ngm.Sites.Add.Finish.{finish-is_ok}
use ngm.Sites.Add.Prepare.{prepare-KeepsSites, prepare-domain}

normalized : (d : Text) → trim_space (normalize_domain d) ≡ normalize_domain d
unfolding normalize_domain
normalized d = trim_space-to_lower-trim_space d

module _ (host : SiteHost) (no_fault : (n : ℕ) → host.fault n ≡ none) where
  open host use {fault}

  -- Deleting the row of a new domain gives the rows that were there before it.
  compensate-lookup :
      (r : Result (Unit {0})) (d d' : Text) (row : Site) (p : Panel)
      → IsKeyed p.db
      → trim_space d ≡ d
      → site_of_domain d p.db.sites ≡ some row
      → is_ok (compensate host d true r p).0 ≡ false
      → site_of_domain d' (compensate host d true r p).1.db.sites
        ≡ (if text_eq d d' then none else site_of_domain d' p.db.sites)
  unfolding compensate try on_db fail return ◌>>=◌
  compensate-lookup (ok u) d d' row p keys trimmed h e = cc
  compensate-lookup (err e') d d' row p keys trimmed h e =
      let done = delete_site_by_domain-done fault no_fault d row p.db (rw trimmed h) in
      rw done (delete_site_by_domain-lookup fault d d' p.db keys ∙ rw (done, trimmed) refl)

  ensure_dns-db :
      (dns : Provider) (input : _) (parent : Text) (p : Panel)
      → (ensure_dns host dns input parent p).1.db ≡ p.db
  unfolding ensure_dns on_files
  ensure_dns-db dns input [] p = refl
  ensure_dns-db dns input (c ∷ parent) p = refl

  with_dns-lookup :
      (dns : Option Provider) (d parent d' : Text) (row : Site) (p : Panel)
      → IsKeyed p.db
      → trim_space d ≡ d
      → site_of_domain d p.db.sites ≡ some row
      → is_ok (with_dns host dns d parent true p).0 ≡ false
      → site_of_domain d' (with_dns host dns d parent true p).1.db.sites
        ≡ (if text_eq d d' then none else site_of_domain d' p.db.sites)
  unfolding with_dns try return ◌>>=◌
  with_dns-lookup none d parent d' row p keys trimmed h e = cc
  with_dns-lookup (some dns) d parent d' row p keys trimmed h e =
      let x : Result (Unit {0}) × Panel =
        ensure_dns host dns (site_dns_input_from_parts host d parent) parent p in
      let same : x.1.db ≡ p.db =
        ensure_dns-db dns (site_dns_input_from_parts host d parent) parent p in
      compensate-lookup x.0 d d' row x.1 (subst IsKeyed (sym same) keys) trimmed
        (ap (λ db. site_of_domain d db.sites) same ∙ h) e
      ∙ ap (λ (db : Db). if text_eq d d' then none else site_of_domain d' db.sites) same

  new_row_read :
      (d : Text) (p : Panel)
      → site_of_domain d p.db.sites ≡ none
      → on_row (get_site_by_domain fault d) p ≡ (ok no_rows, record p { db = tick_db p.db })
  unfolding on_row get_site_by_domain of_option
  new_row_read d p h =
      rw (query_row-done fault no_fault (λ t. site_of_domain d t.sites) p.db, h) refl

  with_row : Text → Site → Site → Act Site
  with_row parent s stored = with_dns host host.dns s.domain parent true >> return stored

  with_row-is_ok :
      (parent : Text) (s stored : Site) (p : Panel)
      → is_ok (with_row parent s stored p).0
        ≡ is_ok (with_dns host host.dns s.domain parent true p).0
  unfolding with_row return ◌>>◌
  with_row-is_ok parent s stored p = ended (with_dns host host.dns s.domain parent true p)
    where
      ended :
          (x : Result (Unit {0}) × Panel) → is_ok (bind_step x (λ _. return stored)).0 ≡ is_ok x.0
      ended (ok u, q) = refl
      ended (err e, q) = refl

  with_row-state :
      (parent : Text) (s stored : Site) (p : Panel)
      → (with_row parent s stored p).1 ≡ (with_dns host host.dns s.domain parent true p).1
  unfolding with_row return ◌>>◌
  with_row-state parent s stored p = ended (with_dns host host.dns s.domain parent true p)
    where
      ended : (x : Result (Unit {0}) × Panel) → (bind_step x (λ _. return stored)).1 ≡ x.1
      ended (ok u, q) = refl
      ended (err e, q) = refl

  -- The rows that were there before the row was added.
  without_row :
      (s new : Site) (d' : Text) (db : Db)
      → new.domain ≡ s.domain
      → site_of_domain s.domain db.sites ≡ none
      → (if text_eq s.domain d' then none else site_of_domain d' (added new db).sites)
        ≡ site_of_domain d' db.sites
  without_row s new d' db same h = elim (Bool-cases (text_eq s.domain d')) [
    | inl e ↦ rw (e, sym ((text_eq_iff s.domain d').0 e), h) refl
    | inr e ↦ rw e (added-lookup new db d' (rw same e))
  ]

  with_row-lookup :
      (parent : Text) (s stored : Site) (d' : Text) (p q : Panel)
      → IsKeyed p.db
      → trim_space s.domain ≡ s.domain
      → site_of_domain s.domain p.db.sites ≡ none
      → site_table q.db ≡ site_table (added (with_mode s) p.db)
      → is_ok (with_row parent s stored q).0 ≡ false
      → site_of_domain d' (with_row parent s stored q).1.db.sites ≡ site_of_domain d' p.db.sites
  with_row-lookup parent s stored d' p q keys trimmed h same e =
      let named = with_mode-domain s in
      let row = added-row (with_mode s) p.db (rw named h) in
      let sites = ap (λ t. t.0) same in
      ap (λ x. site_of_domain d' x.db.sites) (with_row-state parent s stored q)
      ∙ with_dns-lookup host.dns s.domain parent d' row.0 q
          (subst (λ (t : List Site × ℕ). keyed t.1 t.0 ≡ true) (sym same)
            (added-IsKeyed (with_mode s) p.db (rw named h) keys))
          trimmed
          (ap (λ ss. site_of_domain s.domain ss) sites
            ∙ ap (λ d. site_of_domain d (added (with_mode s) p.db).sites) (sym named)
            ∙ row.1)
          (sym (with_row-is_ok parent s stored q) ∙ e)
      ∙ rw sites (without_row s (with_mode s) d' p.db named h)

  add_step : Text → Site → Result Site × Panel → Result Site × Panel
  add_step parent s x = bind_step x (with_row parent s)

  after_upsert :
      (parent : Text) (s : Site) (d' : Text) (p : Panel) (x : Result Site × Db)
      → IsKeyed p.db
      → trim_space s.domain ≡ s.domain
      → site_of_domain s.domain p.db.sites ≡ none
      → ((e : Error) × (x ≡ (err e, p.db)))
        ⊎ ((row : Site) × (x ≡ (ok row, tick_db (tick_db (added (with_mode s) p.db)))))
      → is_ok (add_step parent s (x.0, record p { db = x.1 })).0 ≡ false
      → site_of_domain d' (add_step parent s (x.0, record p { db = x.1 })).1.db.sites
        ≡ site_of_domain d' p.db.sites
  unfolding add_step
  after_upsert parent s d' p x keys trimmed h (inl (e', same)) e = rw same refl
  after_upsert parent s d' p x keys trimmed h (inr (row, same)) e = rw same (
      with_row-lookup parent s row d' p
        (record p { db = tick_db (tick_db (added (with_mode s) p.db)) }) keys trimmed h refl
        (rw same at e))

  add_row-lookup :
      (parent : Text) (s : Site) (d' : Text) (p : Panel)
      → IsKeyed p.db
      → trim_space s.domain ≡ s.domain
      → site_of_domain s.domain p.db.sites ≡ none
      → is_ok (add_row host parent s p).0 ≡ false
      → site_of_domain d' (add_row host parent s p).1.db.sites ≡ site_of_domain d' p.db.sites
  unfolding add_row lift is_new return on_db with_row add_step ◌>>=◌
  add_row-lookup parent s d' p keys trimmed h e = rw (new_row_read s.domain p h) (
      after_upsert parent s d' (record p { db = tick_db p.db }) (upsert_site fault s (tick_db p.db))
        keys trimmed h (upsert_site-cases fault no_fault s (tick_db p.db) h)
        (rw (new_row_read s.domain p h) at e))

  after_add :
      (req : SiteAddRequest) (s : Site) (x : Result Site × Panel)
      → is_ok (bind_step x (finish host req s)).0 ≡ false
      → (is_ok x.0 ≡ false) × ((bind_step x (finish host req s)).1 ≡ x.1)
  after_add req s (ok stored, p) e = let fine = finish-is_ok host req s stored p in cc
  after_add req s (err e', p) e = (refl, refl)

  add_prepared : Text → SiteAddRequest → Site → Act SiteAddResult
  add_prepared parent req s = add_row host parent s >>= finish host req s

  add_prepared-lookup :
      (parent : Text) (req : SiteAddRequest) (s : Site) (d' : Text) (p : Panel)
      → IsKeyed p.db
      → trim_space s.domain ≡ s.domain
      → site_of_domain s.domain p.db.sites ≡ none
      → is_ok (add_prepared parent req s p).0 ≡ false
      → site_of_domain d' (add_prepared parent req s p).1.db.sites ≡ site_of_domain d' p.db.sites
  unfolding add_prepared ◌>>=◌
  add_prepared-lookup parent req s d' p keys trimmed h e =
      let after = after_add req s (add_row host parent s p) e in
      ap (λ q. site_of_domain d' q.db.sites) after.1
      ∙ add_row-lookup parent s d' p keys trimmed h after.0

  from_prepared :
      (req : SiteAddRequest) (d' : Text) (p : Panel) (x : Result Site × Panel)
      → IsKeyed p.db
      → site_of_domain (normalize_domain req.domain) p.db.sites ≡ none
      → ((s : Site) → x.0 ≡ ok s → s.domain ≡ normalize_domain req.domain)
      → site_table x.1.db ≡ site_table p.db
      → is_ok (bind_step x (add_prepared (normalize_domain req.parent_domain) req)).0 ≡ false
      → site_of_domain d'
          (bind_step x (add_prepared (normalize_domain req.parent_domain) req)).1.db.sites
        ≡ site_of_domain d' p.db.sites
  from_prepared req d' p (err e', q) keys h named same e = ap (λ t. site_of_domain d' t.0) same
  from_prepared req d' p (ok s, q) keys h named same e =
      let is_name = named s refl in
      let sites = ap (λ t. t.0) same in
      add_prepared-lookup (normalize_domain req.parent_domain) req s d' q
        (subst (λ (t : List Site × ℕ). keyed t.1 t.0 ≡ true) (sym same) keys)
        (ap trim_space is_name ∙ normalized req.domain ∙ sym is_name)
        (ap (λ d. site_of_domain d q.db.sites) is_name
          ∙ ap (λ ss. site_of_domain (normalize_domain req.domain) ss) sites
          ∙ h)
        e
      ∙ ap (λ ss. site_of_domain d' ss) sites

  -- Where no call of the database fails and the table has its keys, a `SiteAdd` of a domain without a
  -- row that returns an error, whatever the system and the DNS provider do, leaves every look-up of a
  -- site as it was.
  pub site_add-lookup :
      (req : SiteAddRequest) (d : Text) (p : Panel)
      → IsKeyed p.db
      → site_of_domain (normalize_domain req.domain) p.db.sites ≡ none
      → is_ok (site_add host req p).0 ≡ false
      → site_of_domain d (site_add host req p).1.db.sites ≡ site_of_domain d p.db.sites
  unfolding site_add add_prepared ◌>>=◌
  site_add-lookup req d p keys h e =
      from_prepared req d p (prepare host req p) keys h ((prepare-domain host req).ensured p)
        ((prepare-KeepsSites host req).kept p) e
