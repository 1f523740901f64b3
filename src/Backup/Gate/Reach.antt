-- ===== src/Backup/Gate/Reach.antt =====
-- The rows that a session may back up, for `handleBackup` of internal/web/server.go.
use ngm.Base.{
  ◌≡◌, refl, sym, subst, ap, ◌∙◌, Bool, true, false, ◌&&◌, ◌||◌, List, [], ◌∷◌, none, some, ok,
  Bool-cases, Option-cases, inl, inr, arith, All, All-weaken,
}
use ngm.Base.Sort.{sort, sort-All}
use ngm.Text.{Text, text, text_eq, less}
use ngm.Text.Laws.{text_eq_iff, text_eq_refl}
use ngm.Store.{PanelUser}
use ngm.Store.PanelUsers.{get_panel_user_by_username}
use ngm.Web.Session.{Session}
use ngm.Web.Access.{is_id}
use ngm.Backup.Scope.{or_else, panel_by_name, is_included}
use ngm.Backup.Gate.{pass, pass_if}

-- A session may back up all as an administrator, itself, and a reseller also its users.
abbrev pub reachable : Session → PanelUser → Bool
reachable sess u =
    text_eq sess.role (text "admin")
    || (text_eq u.username sess.username
        || (text_eq sess.role (text "reseller") && is_id u.reseller_id sess.user_id))

-- There is a row with this name that the session may back up.
unfoldable pub reaches : Session → Text → List PanelUser → Bool
reaches sess name [] = false
reaches sess name (u ∷ us) = text_eq u.username name && reachable sess u || reaches sess name us

-- Sessions are made with one of the roles.
abbrev pub HasRole : Session → Type 0
HasRole sess =
    (text_eq sess.role (text "admin")
      || (text_eq sess.role (text "reseller") || text_eq sess.role (text "user")))
    ≡ true

-- A row with the session's name is the session's row.
abbrev pub IsOwn : Session → PanelUser → Type 0
IsOwn sess u = text_eq u.username sess.username ≡ true → u.id ≡ sess.user_id

pub reachable_own :
    (sess : Session) (u : PanelUser) → u.username ≡ sess.username → reachable sess u ≡ true
reachable_own sess u e = let same = (text_eq_iff u.username sess.username).1 e in ground arith

pub passed_under : (b : Bool) → ok (pass_if b) ≡ ok pass → b ≡ true
unfolding pass_if
passed_under true e = refl
passed_under false e = cc

pub reachable_admin :
    (sess : Session) (u : PanelUser)
    → text_eq sess.role (text "admin") ≡ true
    → reachable sess u ≡ true
reachable_admin sess u r = ground arith

pub reachable_under :
    (sess : Session) (u : PanelUser)
    → text_eq sess.role (text "reseller") ≡ true
    → is_id u.reseller_id sess.user_id ≡ true
    → reachable sess u ≡ true
reachable_under sess u r e = ground arith

pub panel_by_name-found :
    (P : PanelUser → Type 0) (name : Text) (us : List PanelUser) (u : PanelUser)
    → All P us
    → panel_by_name name us ≡ some u
    → P u × (u.username ≡ name)
unfolding panel_by_name or_else
panel_by_name-found P name [] u a h = cc
panel_by_name-found P name (v ∷ us) u a h = elim (Option-cases (panel_by_name name us)) [
  | inr (w, e) ↦ panel_by_name-found P name us u a.1 (e ∙ (rw e at h))
  | inl e ↦ elim (Bool-cases (text_eq v.username name)) [
    | inl f ↦
        (let same : some v ≡ some u = rw (e, f) at h in
          let is_u : v ≡ u = cc in
          (
            subst P is_u a.0,
            ap (λ (x : PanelUser). x.username) (sym is_u) ∙ (text_eq_iff v.username name).0 f,
          ))
    | inr f ↦ (let no : none ≡ some u = rw (e, f) at h in cc)
  ]
]

pub get_panel_user_by_username-found :
    (P : PanelUser → Type 0) (name : Text) (us : List PanelUser) (u : PanelUser)
    → All P us
    → get_panel_user_by_username name us ≡ some u
    → P u × (u.username ≡ name)
unfolding get_panel_user_by_username
get_panel_user_by_username-found P name [] u a h = cc
get_panel_user_by_username-found P name (v ∷ us) u a h =
    elim (Bool-cases (text_eq v.username name)) [
      | inl f ↦
          (let same : some v ≡ some u = rw f at h in
            let is_u : v ≡ u = cc in
            (
              subst P is_u a.0,
              ap (λ (x : PanelUser). x.username) (sym is_u) ∙ (text_eq_iff v.username name).0 f,
            ))
      | inr f ↦ get_panel_user_by_username-found P name us u a.1 (rw f at h)
    ]

pub included-All :
    (N : Text → Type 0) (name : Text) (ns : List Text)
    → All N ns
    → is_included name ns ≡ true
    → N name
unfolding is_included
included-All N name [] a h = cc
included-All N name (n ∷ ns) a h = elim (Bool-cases (text_eq n name)) [
  | inl f ↦ subst N ((text_eq_iff n name).0 f) a.0
  | inr f ↦ included-All N name ns a.1 (rw f at h)
]

-- Every row that the session may back up is reached by its name.
pub rows-reached :
    (sess : Session) (us : List PanelUser)
    → All (λ u. reachable sess u ≡ true → reaches sess u.username us ≡ true) us
unfolding reaches
rows-reached sess [] = tt
rows-reached sess (u ∷ us) = (
  (λ h. rw (text_eq_refl u.username, h) refl),
  All-weaken us (λ v f h. ground (arith, f h)) (rows-reached sess us),
)

module _ (sess : Session) (us : List PanelUser) where
  -- A name of a row that the session may back up.
  abbrev pub IsReached : Text → Type 0
  IsReached name = reaches sess name us ≡ true

  abbrev pub RowReached : PanelUser → Type 0
  RowReached u = reachable sess u ≡ true → IsReached u.username

-- The rows in the order in which they are read.
abbrev pub listed : List PanelUser → List PanelUser
listed us = sort (λ (a b : PanelUser). less a.username b.username) us

pub listed-reached : (sess : Session) (us : List PanelUser) → All (RowReached sess us) (listed us)
listed-reached sess us = sort-All _ (RowReached sess us) us (rows-reached sess us)
