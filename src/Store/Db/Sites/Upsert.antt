-- ===== src/Store/Db/Sites/Upsert.antt =====
-- `UpsertSite` and `DeleteSiteByDomain` of internal/store/sqlite/sqlite.go, on the tables.
use ngm.Base.{
  ℕ, suc, ◌≡◌, refl, ap, sym, ◌∙◌, Bool, true, false, ◌||◌, List, [], ◌∷◌, ◌++◌, Option, none, some,
  ◌==◌, if◌then◌else◌, arith, Bool-cases, inl, inr,
}
use ngm.Text.{Text, text_eq}
use ngm.Text.Laws.{text_eq_iff, text_eq_refl}
use ngm.Store.{Site}
use ngm.Store.Db.{Db}
use ngm.Store.Db.Sites.{
  site_of_domain, scan_site, update_sites, overwrite, new_row, put_site, nullable,
}
use ngm.Store.Db.Sites.Laws.{
  has_domain, has_id, keyed, IsKeyed, site_of_domain-append, site_of_domain-none, has_domain-none,
  update_same,
}

-- What `UpsertSite` sets of a row: all but the id, the times and the last result.
abbrev pub Settings : Type 0
Settings = ℕ × Text × Option Text × Text × Text × Text × Bool × Bool × Text × Text × Text

unfoldable pub settings : Site → Settings
settings s = (
  s.user_id, s.domain, s.parent_domain, s.mode, s.webroot, s.php_version, s.enable_http3, s.enabled,
  s.client_max_body_size, s.php_time_read, s.php_time_send,
)

unfoldable pub settings_of : Option Site → Option Settings
settings_of none = none
settings_of (some s) = some (settings s)

-- The row as it is written.
unfoldable pub written : Site → Site
written new = record new { parent_domain = nullable new.parent_domain }

settings-overwrite :
    (now : ℕ) (new : Site) (ss : List Site)
    → has_domain new.domain ss ≡ true
    → settings_of (site_of_domain new.domain (update_sites (overwrite now new) new.domain ss))
      ≡ some (settings (scan_site (written new)))
unfolding site_of_domain update_sites has_domain settings_of settings scan_site overwrite written
settings-overwrite now new [] h = cc
settings-overwrite now new (s ∷ ss) h = elim (Bool-cases (text_eq s.domain new.domain)) [
  | inl e ↦
      let same : s.domain ≡ new.domain = (text_eq_iff s.domain new.domain).0 e in
      simp (same, text_eq_refl new.domain) refl
  | inr e ↦ simp (e) (settings-overwrite now new ss (simp (e) at h))
]

found-has_domain :
    (d : Text) (ss : List Site) (s : Site) → site_of_domain d ss ≡ some s → has_domain d ss ≡ true
unfolding site_of_domain has_domain
found-has_domain d [] s h = cc
found-has_domain d (x ∷ ss) s h = ground (arith, found-has_domain d ss s)

overwrite-domain : (now : ℕ) (new s : Site) → (overwrite now new s).domain ≡ s.domain
unfolding overwrite
overwrite-domain now new s = refl

settings-new_row :
    (id now : ℕ) (new : Site)
    → settings_of (some (scan_site (new_row id now new)))
      ≡ some (settings (scan_site (written new)))
unfolding settings_of settings scan_site new_row written
settings-new_row id now new = refl

new_row-domain : (id now : ℕ) (new : Site) → (new_row id now new).domain ≡ new.domain
unfolding new_row
new_row-domain id now new = refl

pub appended :
    (d : Text) (ss : List Site) (s : Site)
    → text_eq s.domain d ≡ false
    → site_of_domain d (ss ++ (s ∷ [])) ≡ site_of_domain d ss
appended d ss s h = ground (arith, site_of_domain-append d ss s, site_of_domain-none d ss)

pub appended_same :
    (ss : List Site) (s : Site)
    → site_of_domain s.domain ss ≡ none
    → site_of_domain s.domain (ss ++ (s ∷ [])) ≡ some (scan_site s)
appended_same ss s h =
    ground (
      arith,
      site_of_domain-append s.domain ss s,
      has_domain-none s.domain ss,
      text_eq_refl s.domain,
    )

put_found :
    (new : Site) (d : Text) (found : Option Site) (db : Db)
    → site_of_domain new.domain db.sites ≡ found
    → settings_of (site_of_domain d (put_site new found db).sites) ≡ (
        if text_eq new.domain d
        then some (settings (scan_site (written new)))
        else settings_of (site_of_domain d db.sites))
unfolding put_site new_row
put_found new d (some s) db h = elim (Bool-cases (text_eq new.domain d)) [
  | inl e ↦
      let same : d ≡ new.domain = sym ((text_eq_iff new.domain d).0 e) in
      simp (same, text_eq_refl new.domain)
        (settings-overwrite db.clock new db.sites (found-has_domain new.domain db.sites s h))
  | inr e ↦
      rw
        (
          e,
          update_same (overwrite db.clock new) new.domain d db.sites (overwrite-domain db.clock new)
              e,
        )
        refl
]
put_found new d none db h = elim (Bool-cases (text_eq new.domain d)) [
  | inl e ↦
      let same : d ≡ new.domain = sym ((text_eq_iff new.domain d).0 e) in
      simp (same, text_eq_refl new.domain)
        (ap settings_of (appended_same db.sites (new_row db.next_site db.clock new) h)
          ∙ settings-new_row db.next_site db.clock new)
  | inr e ↦ rw (e, appended d db.sites (new_row db.next_site db.clock new) e) refl
]

has_domain-update :
    (f : Site → Site) (d d' : Text) (ss : List Site)
    → ((s : Site) → (f s).domain ≡ s.domain)
    → has_domain d' (update_sites f d ss) ≡ has_domain d' ss
unfolding has_domain update_sites
has_domain-update f d d' [] k = refl
has_domain-update f d d' (s ∷ ss) k = ground (arith, has_domain-update f d d' ss k, k s)

has_id-update :
    (f : Site → Site) (d : Text) (id : ℕ) (ss : List Site)
    → ((s : Site) → (f s).id ≡ s.id)
    → has_id id (update_sites f d ss) ≡ has_id id ss
unfolding has_id update_sites
has_id-update f d id [] k = refl
has_id-update f d id (s ∷ ss) k = ground (arith, has_id-update f d id ss k, k s)

pub keyed-update :
    (f : Site → Site) (d : Text) (next : ℕ) (ss : List Site)
    → ((s : Site) → (f s).domain ≡ s.domain)
    → ((s : Site) → (f s).id ≡ s.id)
    → keyed next (update_sites f d ss) ≡ keyed next ss
unfolding keyed update_sites
keyed-update f d next [] k l = refl
keyed-update f d next (s ∷ ss) k l = ground (
  arith,
  keyed-update f d next ss k l,
  has_domain-update f d s.domain ss k,
  has_id-update f d s.id ss l,
  k s,
  l s,
)

has_domain-append :
    (d : Text) (ss : List Site) (s : Site)
    → has_domain d (ss ++ (s ∷ [])) ≡ (has_domain d ss || text_eq s.domain d)
unfolding has_domain
has_domain-append d [] s = ground arith
has_domain-append d (x ∷ ss) s = ground (arith, has_domain-append d ss s)

has_id-append :
    (id : ℕ) (ss : List Site) (s : Site)
    → has_id id (ss ++ (s ∷ [])) ≡ (has_id id ss || (s.id == id))
unfolding has_id
has_id-append id [] s = ground arith
has_id-append id (x ∷ ss) s = ground (arith, has_id-append id ss s)

keyed-append :
    (next : ℕ) (ss : List Site) (s : Site)
    → keyed next ss ≡ true
    → has_domain s.domain ss ≡ false
    → s.id ≡ next
    → keyed (suc next) (ss ++ (s ∷ [])) ≡ true
unfolding keyed has_domain has_id
keyed-append next [] s h k e = ground arith
keyed-append next (x ∷ ss) s h k e = ground (
  arith,
  keyed-append next ss s,
  has_domain-append x.domain ss s,
  has_id-append x.id ss s,
  text_eq_iff x.domain s.domain,
  text_eq_iff s.domain x.domain,
)

overwrite-id : (now : ℕ) (new s : Site) → (overwrite now new s).id ≡ s.id
unfolding overwrite
overwrite-id now new s = refl

-- `INSERT ... ON CONFLICT(domain) DO UPDATE` keeps the keys of the table.
pub put_site-IsKeyed :
    (new : Site) (found : Option Site) (db : Db)
    → site_of_domain new.domain db.sites ≡ found
    → IsKeyed db
    → IsKeyed (put_site new found db)
unfolding put_site new_row
put_site-IsKeyed new (some s) db h k =
    keyed-update (overwrite db.clock new) new.domain db.next_site db.sites
      (overwrite-domain db.clock new) (overwrite-id db.clock new)
    ∙ k
put_site-IsKeyed new none db h k =
    keyed-append db.next_site db.sites (new_row db.next_site db.clock new) k
      (has_domain-none new.domain db.sites h) refl

-- Writing a site sets the row of its domain and leaves the others.
pub put_site-settings :
    (new : Site) (d : Text) (db : Db)
    → settings_of (site_of_domain d (put_site new (site_of_domain new.domain db.sites) db).sites)
      ≡ (if text_eq new.domain d
          then some (settings (scan_site (written new)))
          else settings_of (site_of_domain d db.sites))
put_site-settings new d db = put_found new d (site_of_domain new.domain db.sites) db refl
