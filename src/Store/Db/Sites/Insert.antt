-- ===== src/Store/Db/Sites/Insert.antt =====
-- `UpsertSite` of internal/store/sqlite/sqlite.go for a domain without a row, where no call fails.
use ngm.Base.{
  ℕ, ◌≡◌, refl, subst, ◌∙◌, false, ◌||◌, Option, none, some, Result, ok, err, Error, Bool-cases,
  inl, inr, ◌⊎◌, ◌==◌, fail, ◌>>◌, errorf,
}
use ngm.Text.{Text, text, text_eq, is_empty}
use ngm.Store.{Site}
use ngm.Store.Db.{Db, of_option, to_result, exec, tick_db}
use ngm.Store.Db.Done.{query_row-done, exec-then}
use ngm.Store.Db.Sites.{
  site_of_domain, put_site, with_mode, get_site_by_domain, upsert_site, new_row, scan_site,
}
use ngm.Store.Db.Sites.Laws.{IsKeyed}
use ngm.Store.Db.Sites.Upsert.{put_site-IsKeyed, appended, appended_same}

pub with_mode-domain : (s : Site) → (with_mode s).domain ≡ s.domain
unfolding with_mode
with_mode-domain s = elim (Bool-cases (is_empty s.mode)) [ inl e ↦ rw e refl | inr e ↦ rw e refl ]

unfoldable pub added : Site → Db → Db
added new db = put_site new none db

pub added-row :
    (new : Site) (db : Db)
    → site_of_domain new.domain db.sites ≡ none
    → (row : Site) × (site_of_domain new.domain (added new db).sites ≡ some row)
unfolding added put_site new_row
added-row new db h = (
  scan_site (new_row db.next_site db.clock new),
  appended_same db.sites (new_row db.next_site db.clock new) h,
)

pub added-lookup :
    (new : Site) (db : Db) (d : Text)
    → text_eq new.domain d ≡ false
    → site_of_domain d (added new db).sites ≡ site_of_domain d db.sites
unfolding added put_site new_row
added-lookup new db d h = appended d db.sites (new_row db.next_site db.clock new) h

pub added-IsKeyed :
    (new : Site) (db : Db)
    → site_of_domain new.domain db.sites ≡ none
    → IsKeyed db
    → IsKeyed (added new db)
unfolding added
added-IsKeyed new db h keys = put_site-IsKeyed new none db h keys

module _ (fault : ℕ → Option Text) (no_fault : (n : ℕ) → fault n ≡ none) where
  read_back : Text → Db → Result Site × Db
  read_back d db = (to_result (get_site_by_domain fault d db).0, (get_site_by_domain fault d db).1)

  read_back_row :
      (d : Text) (db : Db) (row : Site)
      → site_of_domain d db.sites ≡ some row
      → read_back d db ≡ (ok row, tick_db db)
  unfolding read_back get_site_by_domain to_result of_option
  read_back_row d db row h =
      rw (query_row-done fault no_fault (λ t. site_of_domain d t.sites) db, h) refl

  put_and_read :
      (s new : Site) (db : Db)
      → new.domain ≡ s.domain
      → site_of_domain s.domain db.sites ≡ none
      → (row : Site) × ((exec fault (λ db. put_site new (site_of_domain s.domain db.sites) db)
              >> read_back s.domain)
            db
          ≡ (ok row, tick_db (tick_db (added new db))))
  unfolding added
  put_and_read s new db same h =
      let r =
        subst (λ d. (row : Site) × (site_of_domain d (added new db).sites ≡ some row)) same
          (added-row new db (rw same h)) in
      (
        r.0,
        exec-then fault no_fault (λ db. put_site new (site_of_domain s.domain db.sites) db) _ db
            ∙ rw h (read_back_row s.domain (tick_db (added new db)) r.0 r.1),
      )

  pub upsert_site-cases :
      (s : Site) (db : Db)
      → site_of_domain s.domain db.sites ≡ none
      → ((e : Error) × (upsert_site fault s db ≡ (err e, db)))
        ⊎ ((row : Site) × (upsert_site fault s db
              ≡ (ok row, tick_db (tick_db (added (with_mode s) db)))))
  unfolding upsert_site fail read_back
  upsert_site-cases s db h =
      elim (Bool-cases (is_empty s.domain || ((s.user_id == 0) || is_empty s.webroot))) [
        | inl e ↦ inl (errorf (text "domain, user_id, webroot are required"), rw e refl)
        | inr e ↦
            let r = put_and_read s (with_mode s) db (with_mode-domain s) h in inr (r.0, rw e r.1)
      ]
