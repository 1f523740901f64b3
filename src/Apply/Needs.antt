-- ===== src/Apply/Needs.antt =====
-- `siteNeedsApply` of internal/app/apply.go, and `computeSiteState` of internal/app/site.go without
-- the formatting of the time.
use ngm.Base.{ℕ, Bool, true, false, not, Option, none, some, if◌then◌else◌, ltb}
use ngm.Text.{Text, text, text_eq}
use ngm.Store.{Site}

-- `s.UpdatedAt.After(*s.LastAppliedAt)`, where there is such a time.
unfoldable pub applied_before : Option ℕ → ℕ → Bool
applied_before none updated = true
applied_before (some applied) updated = ltb applied updated

unfoldable pub never_applied : Option ℕ → Bool
never_applied none = true
never_applied (some t) = false

unfoldable pub site_needs_apply : Site → Bool
unfolding never_applied applied_before text_eq
site_needs_apply s =
    if not s.enabled
    then false
    else if never_applied s.last_applied_at
    then true
    else if not (text_eq s.last_apply_status (text "ok"))
    then true
    else applied_before s.last_applied_at s.updated_at

unfoldable pub compute_site_state : Site → Text
unfolding text_eq
compute_site_state s =
    if not s.enabled
    then text "DISABLED"
    else if text_eq s.last_apply_status (text "fail")
    then text "ERROR"
    else if site_needs_apply s
    then text "PENDING"
    else if text_eq s.last_apply_status (text "ok")
    then text "OK"
    else text "PENDING"
