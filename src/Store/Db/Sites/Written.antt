-- ===== src/Store/Db/Sites/Written.antt =====
-- What `UpsertSite` of internal/store/sqlite/sqlite.go leaves in the table of sites.
use ngm.Base.{
  none, ℕ, ◌≡◌, refl, ap, sym, ◌∙◌, true, false, ◌||◌, Option, some, Result, is_ok, Bool-cases,
  Option-cases, inl, inr, ◌⊎◌, ◌==◌, if◌then◌else◌, fail, ◌>>◌,
}
use ngm.Text.{Text, text, text_eq, is_empty, trim_space}
use ngm.Text.Trim.{trim_space_idem}
use ngm.Text.Laws.{text_eq_refl}
use ngm.Store.{Site}
use ngm.Store.Db.{Db, to_result, of_option, tick_db, query_row}
use ngm.Store.Db.Sites.{
  site_of_domain, scan_site, nullable, put_site, with_mode, get_site_by_domain, upsert_site,
}
use ngm.Store.Db.Sites.Laws.{IsKeyed, keyed}
use ngm.Store.Db.Sites.Upsert.{
  Settings, settings, settings_of, written, put_site-settings, put_site-IsKeyed,
}
use ngm.Store.Db.Sites.Insert.{with_mode-domain}
use ngm.Store.Db.Sites.Delete.{exec-cases}
use ngm.Store.Db.Done.{query_row-done, exec-then}

-- The settings that a site is to have: a blank mode is php, and a parent that is blank is none.
abbrev pub mode_or_php : Text → Text
mode_or_php mode = if is_empty mode then text "php" else mode

abbrev pub parent_or_none : Option Text → Option Text
parent_or_none none = none
parent_or_none (some p) = if is_empty (trim_space p) then none else some (trim_space p)

abbrev pub wanted : Site → Settings
wanted s = (
  s.user_id,
  s.domain,
  parent_or_none s.parent_domain,
  mode_or_php s.mode,
  s.webroot,
  s.php_version,
  s.enable_http3,
  s.enabled,
  s.client_max_body_size,
  s.php_time_read,
  s.php_time_send,
)

nullable_twice : (o : Option Text) → nullable (nullable o) ≡ parent_or_none o
unfolding nullable
nullable_twice none = refl
nullable_twice (some p) = elim (Bool-cases (is_empty (trim_space p))) [
  | inl e ↦ rw e refl
  | inr e ↦ rw (e, trim_space_idem p, e) refl
]

settings-with_mode : (s : Site) → settings (scan_site (written (with_mode s))) ≡ wanted s
unfolding settings scan_site written with_mode
settings-with_mode s = elim (Bool-cases (is_empty s.mode)) [
  | inl e ↦ rw (e, nullable_twice s.parent_domain) refl
  | inr e ↦ rw (e, nullable_twice s.parent_domain) refl
]

-- The table after the row of the site is written.
stored : Site → Db → Db
stored s db = put_site (with_mode s) (site_of_domain s.domain db.sites) db

stored-settings :
    (s : Site) (d : Text) (db : Db)
    → settings_of (site_of_domain d (stored s db).sites) ≡ (
        if text_eq s.domain d
        then some (settings (scan_site (written (with_mode s))))
        else settings_of (site_of_domain d db.sites))
unfolding stored
stored-settings s d db =
    ap
      (λ n.
        settings_of
          (site_of_domain d (put_site (with_mode s) (site_of_domain n db.sites) db).sites))
      (sym (with_mode-domain s))
    ∙ put_site-settings (with_mode s) d db
    ∙ ap
        (λ n.
          if text_eq n d
          then some (settings (scan_site (written (with_mode s))))
          else settings_of (site_of_domain d db.sites))
        (with_mode-domain s)

module _ (fault : ℕ → Option Text) where
  query_row-tables :
      {A : Type 0} (f : Db → Option A) (db : Db)
      → ((query_row fault f db).1.sites ≡ db.sites)
        × ((query_row fault f db).1.next_site ≡ db.next_site)
  unfolding query_row
  query_row-tables f db = elim (Option-cases (fault db.clock)) [
    | inl e ↦ rw (e, query_row) (refl, refl)
    | inr (m, e) ↦ rw (e, query_row) (refl, refl)
  ]

  -- The row is written, or nothing is: then the error says so.
  Outcome : Site → Db → Result Site × Db → Type 0
  Outcome s db x =
      ((x.1.sites ≡ (stored s db).sites) × (x.1.next_site ≡ (stored s db).next_site))
      ⊎ ((is_ok x.0 ≡ false) × ((x.1.sites ≡ db.sites) × (x.1.next_site ≡ db.next_site)))

  upsert_site-Outcome : (s : Site) (db : Db) → Outcome s db (upsert_site fault s db)
  unfolding Outcome upsert_site fail stored get_site_by_domain ◌>>◌
  upsert_site-Outcome s db =
      elim (Bool-cases (is_empty s.domain || ((s.user_id == 0) || is_empty s.webroot))) [
        | inl e ↦ rw e (inr (refl, (refl, refl)))
        | inr e ↦
            rw e
              (elim (exec-cases fault
                (λ db. put_site (with_mode s) (site_of_domain s.domain db.sites) db) db) [
                  | inl done ↦
                      rw done (inl (query_row-tables (λ db. site_of_domain s.domain db.sites) _))
                  | inr (m, failed) ↦ rw failed (inr (refl, (refl, refl)))
                ])
      ]

  -- A site that `UpsertSite` returns is written: the row of its domain has its settings, with the mode
  -- php for a blank one and no parent for a blank one, and every other row has the settings that it had.
  pub upsert_site-settings :
      (s : Site) (d : Text) (db : Db)
      → is_ok (upsert_site fault s db).0 ≡ true
      → settings_of (site_of_domain d (upsert_site fault s db).1.sites)
        ≡ (if text_eq s.domain d then some (wanted s) else settings_of (site_of_domain d db.sites))
  unfolding Outcome
  upsert_site-settings s d db h = elim (upsert_site-Outcome s db) [
    | inl (same, _) ↦ rw same (
        stored-settings s d db
        ∙ ap (λ x. if text_eq s.domain d then some x else settings_of (site_of_domain d db.sites))
            (settings-with_mode s))
    | inr (e, _) ↦ cc
  ]

  -- Whatever fails, `UpsertSite` leaves a table with keys: one row of a domain, one row of an id, and
  -- ids below the next one.
  pub upsert_site-IsKeyed : (s : Site) (db : Db) → IsKeyed db → IsKeyed (upsert_site fault s db).1
  unfolding Outcome stored
  upsert_site-IsKeyed s db keys = elim (upsert_site-Outcome s db) [
    | inl (same, next) ↦
        ap (λ n. keyed n (upsert_site fault s db).1.sites) next
        ∙ ap (keyed (stored s db).next_site) same
        ∙ put_site-IsKeyed (with_mode s) (site_of_domain s.domain db.sites) db
            (ap (λ n. site_of_domain n db.sites) (with_mode-domain s)) keys
    | inr (_, (same, next)) ↦
        ap (λ n. keyed n (upsert_site fault s db).1.sites) next
        ∙ ap (keyed db.next_site) same
        ∙ keys
  ]

is_ok-read :
    (o : Option Site) (x : Settings)
    → settings_of o ≡ some x
    → is_ok (to_result (of_option o)) ≡ true
unfolding settings_of to_result of_option
is_ok-read none x h = cc
is_ok-read (some s) x h = refl

module _ (fault : ℕ → Option Text) (no_fault : (n : ℕ) → fault n ≡ none) where
  read_stored :
      (s : Site) (db : Db)
      → is_ok (to_result (get_site_by_domain fault s.domain (tick_db (stored s db))).0) ≡ true
  unfolding get_site_by_domain
  read_stored s db =
      rw
        (query_row-done fault no_fault (λ t. site_of_domain s.domain t.sites)
          (tick_db (stored s db)))
        (is_ok-read (site_of_domain s.domain (stored s db).sites)
          (settings (scan_site (written (with_mode s))))
          (stored-settings s s.domain db ∙ rw (text_eq_refl s.domain) refl))

  upsert_site-accepted :
      (s : Site) (db : Db)
      → (is_empty s.domain || ((s.user_id == 0) || is_empty s.webroot)) ≡ false
      → is_ok (upsert_site fault s db).0 ≡ true
  unfolding upsert_site stored
  upsert_site-accepted s db e = rw e (
      ap (λ (x : Result Site × Db). is_ok x.0)
        (exec-then fault no_fault
          (λ db. put_site (with_mode s) (site_of_domain s.domain db.sites) db) _ db)
      ∙ read_stored s db)

  -- Where no call fails, a site that `UpsertSite` refuses changes no row.
  pub upsert_site-refused :
      (s : Site) (db : Db)
      → is_ok (upsert_site fault s db).0 ≡ false
      → (upsert_site fault s db).1.sites ≡ db.sites
  unfolding upsert_site fail
  upsert_site-refused s db h =
      elim (Bool-cases (is_empty s.domain || ((s.user_id == 0) || is_empty s.webroot))) [
        | inl e ↦ rw e refl
        | inr e ↦ let accepted = upsert_site-accepted s db e in cc
      ]
