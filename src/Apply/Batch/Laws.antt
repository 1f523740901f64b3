-- ===== src/Apply/Batch/Laws.antt =====
-- Dry runs and the limit.
use ngm.Base.{
  ℕ, suc, ◌+◌, ◌≤◌, ◌<◌, ◌≡◌, refl, Bool, true, false, not, ◌&&◌, List, [], ◌∷◌, ◌++◌,
  if◌then◌else◌, Result, ok, err, arith, Bool-cases, inl, inr, if_intro,
}
use ngm.Text.{less, Text, text, text_eq, is_empty}
use ngm.Nginx.{SiteTemplateData}
use ngm.Store.{Site, SiteStore}
use ngm.Apply.{Host, App, ApplyRequest, ApplyDomainResult, normalize_domain}
use ngm.Apply.Needs.{site_needs_apply}
use ngm.Apply.One.{apply_one, apply_found, plain}
use ngm.Apply.Batch.{
  Progress, no_progress, note, count, mark_changed, apply_site, apply_sites, apply_enabled,
  apply_disabled, apply_listed, finish, apply, limit_reached, sort_results, insert_result,
  fail_site, succeed_site, deleted, published, rendered, built, tested, reloaded, roll_back,
}

module _ {S : SiteStore} (host : Host S) (req : ApplyRequest) (dry : req.dry_run ≡ true) where
  apply_site_dry :
      (s : Site) (d : Text) (p : Progress) (a : App S) → (apply_site host req s d p a).1 ≡ a
  unfolding apply_site apply_enabled apply_disabled
  apply_site_dry s d p a = ground arith

  apply_sites_dry :
      (sites : List Site) (p : Progress) (a : App S) → (apply_sites host req sites p a).1 ≡ a
  unfolding apply_sites
  apply_sites_dry [] p a = refl
  apply_sites_dry (s ∷ sites) p a =
      let x : Progress × App S = apply_site host req s (normalize_domain s.domain) p a in
      ground
        (arith, apply_sites_dry sites x.0 x.1, apply_site_dry s (normalize_domain s.domain) p a)

  apply_listed_dry : (r : Result (List Site)) (a : App S) → (apply_listed host req r a).1 ≡ a
  unfolding apply_listed finish
  apply_listed_dry (err e) a = refl
  apply_listed_dry (ok sites) a = simp dry (apply_sites_dry sites no_progress a)

  apply_found_dry : (d : Text) (r : Result Site) (a : App S) → (apply_found host d true r a).1 ≡ a
  unfolding apply_found
  apply_found_dry d (err e) a = refl
  apply_found_dry d (ok s) a = refl

  -- A dry run, of one domain or of all, changes neither a file nor the store.
  pub apply_dry : (a : App S) → (apply host req a).1 ≡ a
  unfolding apply apply_one
  apply_dry a = elim (Bool-cases (is_empty (normalize_domain req.domain))) [
    | inl e ↦ rw e (apply_listed_dry (S.list_sites a.db) a)
    | inr e ↦ rw (e, dry) (apply_found_dry _ _ a)
  ]

-- A result that is not the note of a skipped site.
abbrev pub counts : ApplyDomainResult → ℕ
counts r = if text_eq r.status (text "skipped") then 0 else 1

abbrev pub processed : List ApplyDomainResult → ℕ
processed [] = 0
processed (r ∷ rs) = counts r + processed rs

processed-append :
    (xs ys : List ApplyDomainResult) → processed (xs ++ ys) ≡ processed xs + processed ys
processed-append [] ys = omega arith
processed-append (r ∷ rs) ys = omega (arith, processed-append rs ys)

processed-insert_result :
    (r : ApplyDomainResult) (rs : List ApplyDomainResult)
    → processed (insert_result r rs) ≡ counts r + processed rs
unfolding insert_result
processed-insert_result r [] = refl
processed-insert_result r (x ∷ xs) = elim (Bool-cases (less r.domain x.domain)) [
  | inl e ↦ rw e refl
  | inr e ↦ rw e (omega (arith, processed-insert_result r xs))
]

processed-sort_results : (rs : List ApplyDomainResult) → processed (sort_results rs) ≡ processed rs
unfolding sort_results
processed-sort_results [] = refl
processed-sort_results (r ∷ rs) =
    omega (arith, processed-insert_result r (sort_results rs), processed-sort_results rs)

module _ {S : SiteStore} (host : Host S) where
  -- The loop counts what it has processed.
  abbrev Counted : Progress → Type 0
  Counted p = processed p.domains ≤ p.applied

  counts-le : (r : ApplyDomainResult) → counts r ≤ 1
  counts-le r = ground arith

  count-Counted : (r : ApplyDomainResult) (p : Progress) → Counted p → Counted (count r p)
  unfolding count
  count-Counted r p h = omega (arith, processed-append p.domains (r ∷ []), counts-le r)

  note-Counted :
      (d : Text) (p : Progress)
      → Counted p
      → Counted (note (plain d (text "skip") (text "skipped") []) p)
  unfolding note text text_eq
  note-Counted d p h =
      omega (arith, processed-append p.domains (plain d (text "skip") (text "skipped") [] ∷ []))

  note_applied : (r : ApplyDomainResult) (p : Progress) → (note r p).applied ≤ suc p.applied
  unfolding note
  note_applied r p = omega arith

  below :
      (req : ApplyRequest) (p : Progress)
      → 0 < req.limit
      → limit_reached host req p ≡ false
      → suc p.applied ≤ req.limit
  unfolding limit_reached
  below req p pos e = ground arith

  -- One round adds at most one to the count, and keeps it right.
  abbrev Rounds : Progress → Progress → Type 0
  Rounds p p' = Counted p' × (p'.applied ≤ suc p.applied)

  count-Rounds : (r : ApplyDomainResult) (p : Progress) → Counted p → Rounds p (count r p)
  unfolding count
  count-Rounds r p h = (count-Counted r p h, omega arith)

  succeed_site-Rounds :
      (d action : Text) (b : Bool) (hash : Text) (p : Progress) (a : App S)
      → Counted p
      → Rounds p (succeed_site host d action b hash p a).0
  unfolding succeed_site mark_changed
  succeed_site-Rounds d action true hash p a h = count-Rounds _ (mark_changed d hash p) h
  succeed_site-Rounds d action false hash p a h = count-Rounds _ p h

  deleted-Rounds :
      (d : Text) (p : Progress) (x : Result Bool × App S)
      → Counted p
      → Rounds p (deleted host d p x).0
  unfolding deleted fail_site
  deleted-Rounds d p (err e, a) h = count-Rounds _ p h
  deleted-Rounds d p (ok b, a) h = succeed_site-Rounds d _ b _ p a h

  published-Rounds :
      (d hash : Text) (p : Progress) (x : Result Bool × App S)
      → Counted p
      → Rounds p (published host d hash p x).0
  unfolding published fail_site
  published-Rounds d hash p (err e, a) h = count-Rounds _ p h
  published-Rounds d hash p (ok b, a) h = succeed_site-Rounds d _ b hash p a h

  rendered-Rounds :
      (d : Text) (p : Progress) (x : Result Text × App S)
      → Counted p
      → Rounds p (rendered host d p x).0
  unfolding rendered fail_site
  rendered-Rounds d p (err e, a) h = count-Rounds _ p h
  rendered-Rounds d p (ok c, a) h = published-Rounds d _ p _ h

  built-Rounds :
      (d : Text) (p : Progress) (x : Result SiteTemplateData × App S)
      → Counted p
      → Rounds p (built host d p x).0
  unfolding built fail_site
  built-Rounds d p (err e, a) h = count-Rounds _ p h
  built-Rounds d p (ok td, a) h = rendered-Rounds d p _ h

  abbrev RoundsTo : Progress → Progress × App S → Type 0
  RoundsTo p x = Rounds p x.0

  apply_site-Rounds :
      (req : ApplyRequest) (s : Site) (d : Text) (p : Progress) (a : App S)
      → Counted p
      → Rounds p (apply_site host req s d p a).0
  unfolding apply_site apply_enabled apply_disabled
  apply_site-Rounds req s d p a h =
      if_intro (RoundsTo p) (is_empty d) _ _ (λ _. (h, omega arith))
        λ _.
          if_intro (RoundsTo p) (not s.enabled) _ _
            (λ _.
              if_intro (RoundsTo p) req.dry_run _ _ (λ _. count-Rounds _ p h)
                (λ _. deleted-Rounds d p _ h))
            λ _.
              if_intro (RoundsTo p) (not req.apply_all && not (site_needs_apply s)) _ _
                (λ _. note-Rounds)
                λ _.
                  if_intro (RoundsTo p) req.dry_run _ _ (λ _. count-Rounds _ p h)
                    (λ _. built-Rounds d p _ h)
    where
      note-Rounds : Rounds p (note (plain d (text "skip") (text "skipped") []) p)
      note-Rounds = (note-Counted d p h, note_applied _ p)

  apply_sites-Counted :
      (req : ApplyRequest) (sites : List Site) (p : Progress) (a : App S)
      → 0 < req.limit
      → Counted p
      → p.applied ≤ req.limit
      → processed (apply_sites host req sites p a).0.domains ≤ req.limit
  unfolding apply_sites
  apply_sites-Counted req [] p a pos h k = omega arith
  apply_sites-Counted req (s ∷ sites) p a pos h k =
      let x : Progress × App S = apply_site host req s (normalize_domain s.domain) p a in
      let round : Rounds p x.0 = apply_site-Rounds req s (normalize_domain s.domain) p a h in
      elim (Bool-cases (limit_reached host req p)) [
        | inl e ↦ rw (e, apply_sites) (omega arith)
        | inr e ↦
            rw (e, apply_sites)
              (apply_sites-Counted req sites x.0 x.1 pos round.0
                (omega (arith, below req p pos e, round.1)))
      ]

  finish_domains :
      (req : ApplyRequest) (p : Progress) (a : App S)
      → (finish host req p a).0.0.domains ≡ sort_results p.domains
  unfolding finish tested reloaded roll_back
  finish_domains req p a = ground arith

  apply_listed_limit :
      (req : ApplyRequest) (r : Result (List Site)) (a : App S)
      → 0 < req.limit
      → processed (apply_listed host req r a).0.0.domains ≤ req.limit
  unfolding apply_listed
  apply_listed_limit req (err e) a pos = omega arith
  apply_listed_limit req (ok sites) a pos =
      let x : Progress × App S = apply_sites host req sites no_progress a in
      rw (finish_domains req x.0 x.1, processed-sort_results)
        (apply_sites-Counted req sites no_progress a pos (omega arith) (omega arith))

  -- An apply of all sites with a limit processes no more sites than that; skipped sites do not count.
  pub apply_limit :
      (req : ApplyRequest) (a : App S)
      → is_empty (normalize_domain req.domain) ≡ true
      → 0 < req.limit
      → processed (apply host req a).0.0.domains ≤ req.limit
  unfolding apply
  apply_limit req a all pos = rw all (listed (S.list_sites a.db))
    where
      listed :
          (r : Result (List Site)) → processed (apply_listed host req r a).0.0.domains ≤ req.limit
      listed r = apply_listed_limit req r a pos
