-- ===== src/Store/Db/Sites/Delete.antt =====
-- `DeleteSiteByDomain` of internal/store/sqlite/sqlite.go: one transaction.
use ngm.Base.{
  ℕ, ◌≡◌, refl, ap, true, ◌&&◌, Option, none, some, if◌then◌else◌, arith, Bool-cases, inl, inr,
  Result, ok, err, is_ok, ◌>>◌, ◌⊎◌, errorf, Option-cases,
}
use ngm.Text.{Text, text_eq, trim_space}
use ngm.Store.{Site}
use ngm.Store.Db.{Db, exec, query_row, of_option, Lookup, failed, tick_db, to_result}
use ngm.Store.Db.Sites.{
  site_of_domain, remove_site_id, delete_rows, delete_found, delete_site_by_domain, or_roll_back,
  keep_tables,
}
use ngm.Store.Db.Sites.Laws.{IsKeyed, site_of_domain-remove}

module _ (fault : ℕ → Option Text) where
  pub exec-cases :
      (f : Db → Db) (db : Db)
      → (exec fault f db ≡ (ok tt, tick_db (f db)))
        ⊎ ((m : Text) × (exec fault f db ≡ (err (errorf m), tick_db db)))
  unfolding exec
  exec-cases f db = elim (Option-cases (fault db.clock)) [
    | inl e ↦ inl (rw (e, exec))
    | inr (m, e) ↦ inr (m, rw (e, exec))
  ]

  delete_rows-sites :
      (id : ℕ) (db : Db)
      → is_ok (delete_rows fault id db).0 ≡ true
      → (delete_rows fault id db).1.sites ≡ remove_site_id id db.sites
  unfolding delete_rows exec ◌>>◌
  delete_rows-sites id db h = ground arith

  or_roll_back-sites :
      (old : Db) (x : Result (Unit {0}) × Db)
      → (or_roll_back old x).1.sites ≡ (if is_ok x.0 then x.1.sites else old.sites)
  unfolding or_roll_back keep_tables
  or_roll_back-sites old (ok u, db) = refl
  or_roll_back-sites old (err e, db) = refl

  or_roll_back-is_ok :
      (old : Db) (x : Result (Unit {0}) × Db) → is_ok (or_roll_back old x).0 ≡ is_ok x.0
  unfolding or_roll_back
  or_roll_back-is_ok old (ok u, db) = refl
  or_roll_back-is_ok old (err e, db) = refl

  deleted_row :
      (d' d : Text) (s : Site) (old db : Db)
      → IsKeyed old
      → db.sites ≡ old.sites
      → site_of_domain d old.sites ≡ some s
      → site_of_domain d' (or_roll_back old (delete_rows fault s.id db)).1.sites ≡ (
          if is_ok (or_roll_back old (delete_rows fault s.id db)).0 && text_eq d d'
          then none
          else site_of_domain d' old.sites)
  deleted_row d' d s old db keys same is_row =
      let x : Result (Unit {0}) × Db = delete_rows fault s.id db in
      elim (Bool-cases (is_ok x.0)) [
        | inl e ↦
            rw
              (
                or_roll_back-sites old x,
                or_roll_back-is_ok old x,
                e,
                delete_rows-sites s.id db e,
                same,
              )
              (site_of_domain-remove old.next_site d d' s old.sites keys is_row)
        | inr e ↦ rw (or_roll_back-sites old x, or_roll_back-is_ok old x, e) refl
      ]

  deleted_lookup :
      (d' d : Text) (old db : Db) (o : Option Site)
      → IsKeyed old
      → db.sites ≡ old.sites
      → site_of_domain d old.sites ≡ o
      → site_of_domain d' (delete_found fault old (of_option o) db).1.sites ≡ (
          if is_ok (delete_found fault old (of_option o) db).0 && text_eq d d'
          then none
          else site_of_domain d' old.sites)
  unfolding delete_found of_option to_result
  deleted_lookup d' d old db none keys same h = ap (site_of_domain d') same
  deleted_lookup d' d old db (some s) keys same h = deleted_row d' d s old db keys same h

  query_row-cases :
      (f : Db → Option Site) (db : Db)
      → (query_row fault f db ≡ (of_option (f db), tick_db db))
        ⊎ ((m : Text) × (query_row fault f db ≡ (failed (errorf m), tick_db db)))
  unfolding query_row
  query_row-cases f db = elim (Option-cases (fault db.clock)) [
    | inl e ↦ inl (rw (e, query_row))
    | inr (m, e) ↦ inr (m, rw (e, query_row))
  ]

  row_query : Text → Db → Lookup Site × Db
  row_query d = query_row fault (λ t. site_of_domain d t.sites)

  deleted_query :
      (d' d : Text) (db : Db)
      → IsKeyed db
      → site_of_domain d' (delete_found fault db (row_query d db).0 (row_query d db).1).1.sites ≡ (
          if is_ok (delete_found fault db (row_query d db).0 (row_query d db).1).0 && text_eq d d'
          then none
          else site_of_domain d' db.sites)
  unfolding row_query delete_found
  deleted_query d' d db keys = elim (query_row-cases (λ t. site_of_domain d t.sites) db) [
    | inl e ↦ rw e (deleted_lookup d' d db (tick_db db) (site_of_domain d db.sites) keys refl refl)
    | inr (m, e) ↦ rw e refl
  ]

  -- In a table with keys, `DeleteSiteByDomain` deletes the row of the domain and no other if it returns
  -- no error, and whatever call fails it deletes none if it returns one.
  pub delete_site_by_domain-lookup :
      (d d' : Text) (db : Db)
      → IsKeyed db
      → site_of_domain d' (delete_site_by_domain fault d db).1.sites ≡ (
          if is_ok (delete_site_by_domain fault d db).0 && text_eq (trim_space d) d'
          then none
          else site_of_domain d' db.sites)
  unfolding delete_site_by_domain row_query ◌>>◌
  delete_site_by_domain-lookup d d' db keys = elim (exec-cases (λ db. db) db) [
    | inl e ↦ rw e (deleted_query d' (trim_space d) (tick_db db) keys)
    | inr (m, e) ↦ rw e refl
  ]
