-- ===== src/Store/Db/Sites/Laws.antt =====
-- The table of sites of internal/store/sqlite/sqlite.go: its keys, and what its statements change.
use ngm.Base.{
  ℕ, ◌≡◌, refl, Bool, true, false, not, ◌&&◌, ◌||◌, List, [], ◌∷◌, ◌++◌, Option, none, some, ◌==◌,
  ltb, if◌then◌else◌, arith, Bool-cases, inl, inr,
}
use ngm.Text.{Text, text_eq}
use ngm.Text.Laws.{text_eq_iff}
use ngm.Store.{Site}
use ngm.Store.Db.{Db}
use ngm.Store.Db.Sites.{site_of_domain, scan_site, update_sites, overwrite, new_row, remove_site_id}

unfoldable pub has_domain : Text → List Site → Bool
has_domain d [] = false
has_domain d (s ∷ ss) = text_eq s.domain d || has_domain d ss

unfoldable pub has_id : ℕ → List Site → Bool
has_id id [] = false
has_id id (s ∷ ss) = (s.id == id) || has_id id ss

-- The keys: domains and ids are unique, and the ids are below the next one.
unfoldable pub keyed : ℕ → List Site → Bool
keyed next [] = true
keyed next (s ∷ ss) =
    (not (has_domain s.domain ss) && (not (has_id s.id ss) && ltb s.id next)) && keyed next ss

abbrev pub IsKeyed : Db → Type 0
IsKeyed db = keyed db.next_site db.sites ≡ true

-- The row that `INSERT ... ON CONFLICT(domain) DO UPDATE` leaves for the domain.
unfoldable pub row_put : Site → Option Site → Db → Site
row_put new (some s) db = overwrite db.clock new s
row_put new none db = new_row db.next_site db.clock new

pub site_of_domain-append :
    (d : Text) (ss : List Site) (s : Site)
    → site_of_domain d (ss ++ (s ∷ [])) ≡ (
        if has_domain d ss
        then site_of_domain d ss
        else if text_eq s.domain d
        then some (scan_site s)
        else none)
unfolding site_of_domain has_domain
site_of_domain-append d [] s = refl
site_of_domain-append d (x ∷ ss) s = ground (arith, site_of_domain-append d ss s)

pub site_of_domain-none :
    (d : Text) (ss : List Site) → has_domain d ss ≡ false → site_of_domain d ss ≡ none
unfolding site_of_domain has_domain
site_of_domain-none d [] h = refl
site_of_domain-none d (s ∷ ss) h = ground (arith, site_of_domain-none d ss)

pub has_domain-none :
    (d : Text) (ss : List Site) → site_of_domain d ss ≡ none → has_domain d ss ≡ false
unfolding site_of_domain has_domain
has_domain-none d [] h = refl
has_domain-none d (s ∷ ss) h = ground (arith, has_domain-none d ss)

remove_site_id_none : (id : ℕ) (ss : List Site) → has_id id ss ≡ false → remove_site_id id ss ≡ ss
unfolding has_id remove_site_id
remove_site_id_none id [] h = refl
remove_site_id_none id (s ∷ ss) h = ground (arith, remove_site_id_none id ss)

id_of_domain : Text → List Site → Option ℕ
id_of_domain d [] = none
id_of_domain d (s ∷ ss) =
    let rest = id_of_domain d ss in if text_eq s.domain d then some s.id else rest

id_of_domain-found :
    (d : Text) (ss : List Site) (s : Site)
    → site_of_domain d ss ≡ some s
    → id_of_domain d ss ≡ some s.id
unfolding site_of_domain id_of_domain scan_site
id_of_domain-found d [] s h = cc
id_of_domain-found d (x ∷ ss) s h = ground (arith, id_of_domain-found d ss s)

has_id-found :
    (d : Text) (ss : List Site) (id : ℕ) → id_of_domain d ss ≡ some id → has_id id ss ≡ true
unfolding id_of_domain has_id
has_id-found d [] id h = cc
has_id-found d (x ∷ ss) id h = ground (arith, has_id-found d ss id)

site_of_domain-remove_id :
    (next id : ℕ) (d d' : Text) (ss : List Site)
    → keyed next ss ≡ true
    → id_of_domain d ss ≡ some id
    → site_of_domain d' (remove_site_id id ss)
      ≡ (if text_eq d d' then none else site_of_domain d' ss)
unfolding keyed site_of_domain remove_site_id id_of_domain
site_of_domain-remove_id next id d d' [] h k = cc
site_of_domain-remove_id next id d d' (x ∷ ss) h k = elim (Bool-cases (text_eq x.domain d)) [
  | inl e ↦ ground (
    arith,
    remove_site_id_none id ss,
    text_eq_iff x.domain d,
    text_eq_iff x.domain d',
    text_eq_iff d d',
    site_of_domain-none d ss,
  )
  | inr e ↦ ground (
    arith,
    site_of_domain-remove_id next id d d' ss,
    has_id-found d ss id,
    text_eq_iff x.domain d,
    text_eq_iff x.domain d',
    text_eq_iff d d',
  )
]

-- In a table with keys, deleting the row of a domain by its id deletes this domain and no other.
pub site_of_domain-remove :
    (next : ℕ) (d d' : Text) (s : Site) (ss : List Site)
    → keyed next ss ≡ true
    → site_of_domain d ss ≡ some s
    → site_of_domain d' (remove_site_id s.id ss)
      ≡ (if text_eq d d' then none else site_of_domain d' ss)
site_of_domain-remove next d d' s ss h k =
    site_of_domain-remove_id next s.id d d' ss h (id_of_domain-found d ss s k)

pub update_same :
    (f : Site → Site) (d d' : Text) (ss : List Site)
    → ((s : Site) → (f s).domain ≡ s.domain)
    → text_eq d d' ≡ false
    → site_of_domain d' (update_sites f d ss) ≡ site_of_domain d' ss
unfolding site_of_domain update_sites
update_same f d d' [] k h = refl
update_same f d d' (s ∷ ss) k h =
    ground (arith, update_same f d d' ss k h, k s, text_eq_iff s.domain d, text_eq_iff d d')
