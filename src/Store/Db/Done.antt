-- ===== src/Store/Db/Done.antt =====
-- The statements of internal/store/sqlite/sqlite.go where no call of the database fails.
use ngm.Base.{ℕ, ◌≡◌, refl, ap, ◌∙◌, true, Option, none, some, Result, ok, err, is_ok, ◌>>◌}
use ngm.Text.{Text, trim_space}
use ngm.Store.{Site}
use ngm.Store.Db.{Db, Sql, exec, query_row, of_option, tick_db, found}
use ngm.Store.Db.Sites.{
  site_of_domain, delete_site_by_domain, delete_rows, delete_found, or_roll_back,
}

module _ (fault : ℕ → Option Text) (no_fault : (n : ℕ) → fault n ≡ none) where
  pub query_row-done :
      {A : Type 0} (f : Db → Option A) (db : Db)
      → query_row fault f db ≡ (of_option (f db), tick_db db)
  unfolding query_row
  query_row-done f db = rw (query_row, no_fault db.clock) refl

  pub exec-done : (f : Db → Db) (db : Db) → exec fault f db ≡ (ok tt, tick_db (f db))
  unfolding exec
  exec-done f db = rw (exec, no_fault db.clock) refl

  pub exec-then :
      {A : Type 0} (f : Db → Db) (m : Sql A) (db : Db) → (exec fault f >> m) db ≡ m (tick_db (f db))
  unfolding exec ◌>>◌
  exec-then f m db = rw (exec, no_fault db.clock) refl

  delete_rows-done : (id : ℕ) (db : Db) → is_ok (delete_rows fault id db).0 ≡ true
  unfolding delete_rows
  delete_rows-done id db =
      ap (λ x. is_ok x.0)
        (exec-then _ _ db ∙ exec-then _ _ _ ∙ exec-then _ _ _ ∙ exec-done (λ db. db) _)

  or_roll_back-is_ok :
      (old : Db) (x : Result (Unit {0}) × Db) → is_ok (or_roll_back old x).0 ≡ is_ok x.0
  unfolding or_roll_back
  or_roll_back-is_ok old (ok u, db) = refl
  or_roll_back-is_ok old (err e, db) = refl

  delete_found-done :
      (old db : Db) (s : Site) → is_ok (delete_found fault old (found s) db).0 ≡ true
  unfolding delete_found
  delete_found-done old db s =
      or_roll_back-is_ok old (delete_rows fault s.id db) ∙ delete_rows-done s.id db

  -- Where no call fails, a row that is there is deleted.
  pub delete_site_by_domain-done :
      (d : Text) (s : Site) (db : Db)
      → site_of_domain (trim_space d) db.sites ≡ some s
      → is_ok (delete_site_by_domain fault d db).0 ≡ true
  unfolding delete_site_by_domain of_option
  delete_site_by_domain-done d s db h =
      ap (λ x. is_ok x.0) (exec-then (λ db. db) _ db)
      ∙ rw (query_row-done (λ t. site_of_domain (trim_space d) t.sites) (tick_db db), h)
          (delete_found-done (tick_db db) _ s)
