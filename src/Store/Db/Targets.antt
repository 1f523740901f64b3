-- ===== src/Store/Db/Targets.antt =====
-- The proxy targets of internal/store/sqlite/sqlite.go.
use ngm.Base.{ℕ, suc, Bool, true, false, ◌&&◌, List, [], ◌∷◌, ◌++◌, Option, ◌==◌, if◌then◌else◌}
use ngm.Text.{Text, text_eq, trim_space}
use ngm.Nginx.{UpstreamTarget}
use ngm.Store.Db.{Db, Sql, TargetRow, exec, query}

unfoldable pub is_target : ℕ → Text → TargetRow → Bool
is_target id t r = (r.site_id == id) && text_eq r.target t

unfoldable pub has_target : ℕ → Text → List TargetRow → Bool
has_target id t [] = false
has_target id t (r ∷ rs) = let rest = has_target id t rs in if is_target id t r then true else rest

unfoldable pub update_targets : (TargetRow → TargetRow) → ℕ → Text → List TargetRow → List TargetRow
update_targets f id t [] = []
update_targets f id t (r ∷ rs) =
    let rest = update_targets f id t rs in if is_target id t r then f r ∷ rest else r ∷ rest

-- `INSERT ... ON CONFLICT(site_id,target) DO UPDATE`
unfoldable pub put_target : ℕ → Text → ℕ → Bool → Bool → Bool → Db → Db
put_target id t weight backup enabled true db = record db {
  targets =
      update_targets (λ r. record r { weight = weight; is_backup = backup; enabled = enabled }) id t
        db.targets;
}
put_target id t weight backup enabled false db = record db {
  targets =
      db.targets
      ++ (record {
        id = db.next_target;
        site_id = id;
        target = t;
        weight = weight;
        is_backup = backup;
        enabled = enabled;
      }
          ∷ []);
  next_target = suc db.next_target;
}

-- The targets of a site that are, or are not, backups, in the order of their ids.
unfoldable pub targets_of : Bool → ℕ → List TargetRow → List UpstreamTarget
targets_of backup id [] = []
targets_of backup id (r ∷ rs) =
    let rest = targets_of backup id rs in
    if (r.site_id == id) && same backup r.is_backup
    then record { addr = r.target; weight = r.weight; is_backup = r.is_backup; enabled = r.enabled }
      ∷ rest
    else rest
  where
    same : Bool → Bool → Bool
    same true b = b
    same false true = false
    same false false = true

module _ (fault : ℕ → Option Text) where
  -- `ORDER BY is_backup ASC, id ASC`: the rows stand in the order of their ids.
  unfoldable pub list_proxy_targets_by_site_id : ℕ → Sql (List UpstreamTarget)
  list_proxy_targets_by_site_id id =
      query fault (λ db. targets_of false id db.targets ++ targets_of true id db.targets)

  unfoldable pub upsert_proxy_target : ℕ → Text → ℕ → Bool → Bool → Sql (Unit {0})
  upsert_proxy_target id t weight backup enabled = exec fault λ db.
      put_target id (trim_space t) weight backup enabled (has_target id (trim_space t) db.targets)
        db

  unfoldable pub disable_proxy_target : ℕ → Text → Sql (Unit {0})
  disable_proxy_target id t = exec fault λ db. record db {
    targets = update_targets (λ r. record r { enabled = false }) id (trim_space t) db.targets;
  }
