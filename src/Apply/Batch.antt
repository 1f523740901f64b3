-- ===== src/Apply/Batch.antt =====
-- `App.Apply` of internal/app/apply.go: one domain, or every site of the store with one test and one
-- reload for all that changed. A limit of zero is none, as is a negative one in the source.
pub mod Laws
use ngm.Base.{
  ℕ, suc, Bool, true, false, not, ◌&&◌, ◌||◌, List, [], ◌∷◌, ◌++◌, Option, none, some,
  if◌then◌else◌, ltb, leb, ◌==◌, Error, Result, ok, err, wrap, return, try,
}
use ngm.Text.{less, Text, text, text_eq, is_empty}
use ngm.Nginx.{SiteTemplateData, publish}
use ngm.Nginx.Control.{test_config, reload_or_start}
use ngm.Nginx.Render.{render_site_to_staging}
use ngm.Store.{Site, SiteStore}
use ngm.Apply.{
  Host, App, ApplyRequest, ApplyResult, ApplyDomainResult, on_world, change_world, update_result,
  rollback_from_backup, stage_delete_live_conf, normalize_domain,
}
use ngm.Apply.Needs.{site_needs_apply}
use ngm.Apply.One.{plain, failed, hash_of, apply_one, Outcome}

-- The variables of the loop: `res.Domains`, `applied`, `changed` and `changedHashes`.
pub record Progress : Type 0 where
  pub domains : List ApplyDomainResult
  pub applied : ℕ
  pub changed : List Text
  pub hashes : List (Text × Text)

abbrev pub no_progress : Progress
no_progress = record { domains = []; applied = 0; changed = []; hashes = [] }

-- A result that does not count, and one that does.
unfoldable pub note : ApplyDomainResult → Progress → Progress
note r p = record p { domains = p.domains ++ (r ∷ []) }

unfoldable pub count : ApplyDomainResult → Progress → Progress
count r p = record p { domains = p.domains ++ (r ∷ []); applied = suc p.applied }

unfoldable pub mark_changed : Text → Text → Progress → Progress
mark_changed d hash p = record p { changed = p.changed ++ (d ∷ []); hashes = (d, hash) ∷ p.hashes }

-- `changedHashes[d]`
unfoldable pub hash_for : Text → List (Text × Text) → Text
hash_for d [] = []
hash_for d ((k, v) ∷ m) = if text_eq k d then v else hash_for d m

unfoldable pub insert_result : ApplyDomainResult → List ApplyDomainResult → List ApplyDomainResult
unfolding less
insert_result r [] = r ∷ []
insert_result r (x ∷ xs) = if less r.domain x.domain then r ∷ x ∷ xs else x ∷ insert_result r xs

-- `sort.Slice` by domain.
unfoldable pub sort_results : List ApplyDomainResult → List ApplyDomainResult
unfolding insert_result
sort_results [] = []
sort_results (r ∷ rs) = insert_result r (sort_results rs)

module _ {S : SiteStore} (host : Host S) where
  open host use {env, manager}

  unfoldable pub fail_site : Text → Text → Text → Text → Error → Progress → App S → Progress × App S
  fail_site d action prefix hash e p a =
      (count (failed d action hash e) p, update_result d (text "fail") (prefix ++ e.message) hash a)

  unfoldable pub succeed_site : Text → Text → Bool → Text → Progress → App S → Progress × App S
  succeed_site d action changed hash p a = (
    count (record (plain d action (text "ok") hash) { changed = changed })
        (if changed then mark_changed d hash p else p),
    update_result d (text "ok") [] hash a,
  )

  unfoldable pub deleted : Text → Progress → Result Bool × App S → Progress × App S
  deleted d p (err e, a) = fail_site d (text "delete") (text "delete live conf failed: ") [] e p a
  deleted d p (ok changed, a) = succeed_site d (text "delete") changed [] p a

  unfoldable pub published : Text → Text → Progress → Result Bool × App S → Progress × App S
  published d hash p (err e, a) = fail_site d (text "apply") [] hash e p a
  published d hash p (ok changed, a) = succeed_site d (text "apply") changed hash p a

  unfoldable pub rendered : Text → Progress → Result Text × App S → Progress × App S
  rendered d p (err e, a) = fail_site d (text "apply") [] (hash_of host.sha256_hex (err e)) e p a
  rendered d p (ok content, a) =
      published d (hash_of host.sha256_hex (ok content)) p (on_world (publish env d) a)

  unfoldable pub built : Text → Progress → Result SiteTemplateData × App S → Progress × App S
  built d p (err e, a) = fail_site d (text "apply") [] [] e p a
  built d p (ok td, a) = rendered d p (on_world (render_site_to_staging env host.template td) a)

  unfoldable pub apply_enabled : Bool → Site → Text → Progress → App S → Progress × App S
  apply_enabled dry s d p a =
      if dry
      then (count (plain d (text "apply") (text "dry-run") []) p, a)
      else built d p (on_world (host.build_template_data s d a.db) a)

  unfoldable pub apply_disabled : Bool → Text → Progress → App S → Progress × App S
  apply_disabled dry d p a =
      if dry
      then (count (plain d (text "delete") (text "dry-run") []) p, a)
      else deleted d p (on_world (stage_delete_live_conf env d) a)

  -- The body of the loop, after the test of the limit.
  unfoldable pub apply_site : ApplyRequest → Site → Text → Progress → App S → Progress × App S
  apply_site req s d p a =
      if is_empty d
      then (p, a)
      else if not s.enabled
      then apply_disabled req.dry_run d p a
      else if not req.apply_all && not (site_needs_apply s)
      then (note (plain d (text "skip") (text "skipped") []) p, a)
      else apply_enabled req.dry_run s d p a

  unfoldable pub limit_reached : ApplyRequest → Progress → Bool
  limit_reached req p = ltb 0 req.limit && leb req.limit p.applied

  unfoldable pub apply_sites : ApplyRequest → List Site → Progress → App S → Progress × App S
  apply_sites req [] p a = (p, a)
  apply_sites req (s ∷ sites) p a = elim (limit_reached req p) [
    | true ↦ (p, a)
    | false ↦
        let x : Progress × App S = apply_site req s (normalize_domain s.domain) p a in
        apply_sites req sites x.0 x.1
  ]

  -- The failure is recorded for each domain that changed.
  unfoldable pub record_failures : Text → List Text → List (Text × Text) → App S → App S
  record_failures message [] hashes a = a
  record_failures message (d ∷ ds) hashes a =
      record_failures message ds hashes
        (update_result d (text "fail") message (hash_for d hashes) a)

  abbrev result_of : Progress → ApplyResult
  result_of p = record { domains = sort_results p.domains; changed = []; reloaded = false }

  unfoldable pub roll_back : Text → Error → Progress → App S → (ApplyResult × Option Error) × App S
  roll_back prefix e p a =
      let a1 = change_world (rollback_from_backup env p.changed) a in
      let a2 = (on_world (try (reload_or_start env manager)) a1).1 in
      (
        (result_of p, some (wrap prefix e)),
        record_failures (prefix ++ e.message) p.changed p.hashes a2,
      )

  unfoldable pub reloaded :
      Progress → Result (Unit {0}) × App S → (ApplyResult × Option Error) × App S
  reloaded p (err e, a) = roll_back (text "nginx reload/start failed (rolled back): ") e p a
  reloaded p (ok u, a) = ((record (result_of p) { changed = p.changed; reloaded = true }, none), a)

  unfoldable pub tested :
      Progress → Result (Unit {0}) × App S → (ApplyResult × Option Error) × App S
  tested p (err e, a) = roll_back (text "nginx -t failed (rolled back): ") e p a
  tested p (ok u, a) = reloaded p (on_world (reload_or_start env manager) a)

  abbrev nothing_changed : List Text → Bool
  nothing_changed [] = true
  nothing_changed (d ∷ ds) = false

  -- What follows the loop.
  unfoldable pub finish : ApplyRequest → Progress → App S → (ApplyResult × Option Error) × App S
  finish req p a =
      if req.dry_run || nothing_changed p.changed
      then ((result_of p, none), a)
      else tested p
          (on_world (if host.test_before_reload then test_config env manager else return tt) a)

  unfoldable pub apply_listed :
      ApplyRequest → Result (List Site) → App S → (ApplyResult × Option Error) × App S
  apply_listed req (err e) a =
      ((record { domains = []; changed = []; reloaded = false }, some e), a)
  apply_listed req (ok sites) a =
      let (p, a') = apply_sites req sites no_progress a in finish req p a'

  abbrev single : Text → Outcome → ApplyResult × Option Error
  single d o = (
    record {
      domains = o.result ∷ [];
      changed = if o.changed then d ∷ [] else [];
      reloaded = false;
    },
    o.error,
  )

  unfoldable pub apply : ApplyRequest → App S → (ApplyResult × Option Error) × App S
  apply req a =
      let d = normalize_domain req.domain in
      if is_empty d
      then apply_listed req (S.list_sites a.db) a
      else let (o, a') = apply_one host d req.dry_run a in (single d o, a')
