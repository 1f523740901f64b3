-- ===== src/Backup/Gate/Scopes.antt =====
-- The names that a scope of internal/backup/backup.go takes in, after the tests of `handleBackup` of
-- internal/web/server.go.
use ngm.Base.{
  ℕ, ◌≡◌, refl, sym, subst, ap, ◌∙◌, true, false, ◌&&◌, ◌||◌, List, [], ◌∷◌, Option, none, some,
  Error, ok, err, Bool-cases, Option-cases, inl, inr, arith, map, All, return,
}
use ngm.Base.Sort.{sort-All}
use ngm.Text.{Text, text, text_eq, trim_space}
use ngm.Text.Laws.{text_eq_iff}
use ngm.Store.{PanelUser}
use ngm.Store.PanelUsers.{get_panel_user_by_username}
use ngm.Store.Db.{Db, of_option, query_row}
use ngm.Store.Db.PanelUsers.{panel_user_named}
use ngm.Web.Session.{Session}
use ngm.Web.Access.{is_id}
use ngm.Backup.{ManifestSubject}
use ngm.Backup.Scope.{panel_by_name, names_under, user_scope, reseller_scope}
use ngm.Backup.Gate.{BackupHost, is_under, pass, pass_if, forbidden, under_gate, user_gate}
use ngm.Backup.Gate.Reach.{
  reachable, HasRole, IsOwn, reachable_own, reachable_admin, reachable_under, passed_under,
  panel_by_name-found, get_panel_user_by_username-found, rows-reached, IsReached, RowReached,
  listed, listed-reached,
}

pub names_of : {x y : List Text × ManifestSubject} → ok x ≡ ok y → x.0 ≡ y.0
names_of {x} {y} e = let same : x ≡ y = cc in ap (λ z. z.0) same

not_named : {C : Type 0} {e' : Error} {x : List Text × ManifestSubject} → err e' ≡ ok x → C
not_named e = cc

pub not_both : (s a b : Text) → text_eq a b ≡ false → text_eq s a ≡ true → text_eq s b ≡ false
not_both s a b h e = rw ((text_eq_iff s a).0 e) h

pub all_not_user : text_eq (text "all") (text "user") ≡ false
unfolding text text_eq
all_not_user = refl

pub all_not_reseller : text_eq (text "all") (text "reseller") ≡ false
unfolding text text_eq
all_not_reseller = refl

pub reseller_not_user : text_eq (text "reseller") (text "user") ≡ false
unfolding text text_eq
reseller_not_user = refl

module _ (sess : Session) (us : List PanelUser) where
  pub map-All :
      (l : List PanelUser)
      → text_eq sess.role (text "admin") ≡ true
      → All (RowReached sess us) l
      → All (IsReached sess us) (map (λ (u : PanelUser). u.username) l)
  map-All [] e rows = tt
  map-All (u ∷ l) e rows = (rows.0 (rw e refl), map-All l e rows.1)

  -- The users of a reseller are ones that the session may back up.
  abbrev pub AllUnder : ℕ → Type 0
  AllUnder id =
      (u : PanelUser)
      → text_eq u.role (text "user") && is_id u.reseller_id id ≡ true
      → reachable sess u ≡ true

  names_under-All :
      (id : ℕ) (l : List PanelUser)
      → AllUnder id
      → All (RowReached sess us) l
      → All (IsReached sess us) (names_under id l)
  unfolding names_under
  names_under-All id [] under rows = tt
  names_under-All id (u ∷ l) under rows =
      let rest = names_under-All id l under rows.1 in
      elim (Bool-cases (text_eq u.role (text "user") && is_id u.reseller_id id)) [
        | inr f ↦ rw f rest
        | inl f ↦ rw f (rows.0 (under u f), rest)
      ]

  own_under :
      (id : ℕ) → id ≡ sess.user_id → text_eq sess.role (text "reseller") ≡ true → AllUnder id
  own_under id same r u f =
      reachable_under sess u r (subst (λ n. is_id u.reseller_id n ≡ true) same (ground arith))

  module _ (own : All (IsOwn sess) us) (trimmed : trim_space sess.username ≡ sess.username) where
    found-IsReached :
        (user : Text) (o : Option PanelUser)
        → get_panel_user_by_username (trim_space user) us ≡ o
        → is_under sess (of_option o) ≡ true
        → text_eq sess.role (text "reseller") ≡ true
        → IsReached sess us (trim_space user)
    unfolding is_under of_option
    found-IsReached user none e h r = cc
    found-IsReached user (some u) e h r =
        let (row, name) =
          get_panel_user_by_username-found (RowReached sess us) (trim_space user) us u
            (rows-reached sess us) e in
        subst (IsReached sess us) name (row (reachable_under sess u r h))

    under_gate-IsReached :
        (host : BackupHost) (user : Text) (db : Db)
        → db.panel_users ≡ us
        → (under_gate host sess user db).0 ≡ ok pass
        → text_eq sess.role (text "reseller") ≡ true
        → IsReached sess us (trim_space user)
    unfolding under_gate panel_user_named query_row pass_if is_under of_option
    under_gate-IsReached host user db same h r = elim (Option-cases (host.fault db.clock)) [
      | inr (m, e) ↦
          (let no : ok forbidden ≡ ok pass = rw (e, under_gate, panel_user_named, query_row) at h in
            cc)
      | inl e ↦
          let passed : ok (
                pass_if (
                  is_under sess
                    (of_option (get_panel_user_by_username (trim_space user) db.panel_users))))
              ≡ ok pass =
            rw (e, under_gate, panel_user_named, query_row) at h in
          found-IsReached user _ refl (rw (sym same) (passed_under _ passed)) r
    ]

    -- Where the test of a single user passes, a row with the name is one the session may back up.
    pub user_gate-IsReached :
        (host : BackupHost) (user : Text) (db : Db) (u : PanelUser)
        → HasRole sess
        → db.panel_users ≡ us
        → (user_gate host sess user db).0 ≡ ok pass
        → RowReached sess us u
        → u.username ≡ trim_space user
        → IsReached sess us (trim_space user)
    unfolding user_gate return
    user_gate-IsReached host user db u role same h row name =
        elim (Bool-cases (text_eq sess.role (text "user"))) [
          | inl f ↦ elim (Bool-cases (text_eq user sess.username)) [
            | inl g ↦
                (let is_own = ap trim_space ((text_eq_iff user sess.username).0 g) ∙ trimmed in
                  subst (IsReached sess us) name (row (reachable_own sess u (name ∙ is_own))))
            | inr g ↦ (let no : ok forbidden ≡ ok pass = rw (f, g) at h in cc)
          ]
          | inr f ↦ elim (Bool-cases (text_eq sess.role (text "reseller"))) [
            | inl g ↦ under_gate-IsReached host user db same (rw (f, g) at h) g
            | inr g ↦ subst (IsReached sess us) name (row (reachable_admin sess u (ground arith)))
          ]
        ]

    pub user_scope-IsReached :
        (user : Text) (o : Option PanelUser) (names : List Text) (subject : ManifestSubject)
        → ((u : PanelUser) → o ≡ some u → IsReached sess us user)
        → user_scope user o ≡ ok (names, subject)
        → All (IsReached sess us) names
    unfolding user_scope
    user_scope-IsReached user none names subject h e = cc
    user_scope-IsReached user (some u) names subject h e =
        let is_user : user ∷ [] ≡ names = cc in
        subst (All (IsReached sess us)) is_user (h u refl, tt)

    pub reseller_scope-IsReached :
        (user : Text) (l : List PanelUser) (o : Option PanelUser) (names : List Text)
        (subject : ManifestSubject)
        → All (RowReached sess us) l
        → ((u : PanelUser) → o ≡ some u → IsReached sess us user × AllUnder u.id)
        → reseller_scope user l o ≡ ok (names, subject)
        → All (IsReached sess us) names
    unfolding reseller_scope
    reseller_scope-IsReached user l none names subject rows h e = cc
    reseller_scope-IsReached user l (some u) names subject rows h e =
        elim (Bool-cases (text_eq u.role (text "reseller"))) [
          | inl f ↦
              let are : user ∷ names_under u.id l ≡ names = names_of (rw f at e) in
              subst (All (IsReached sess us)) are
                ((h u refl).0, names_under-All u.id l (h u refl).1 rows)
          | inr f ↦ not_named (rw f at e)
        ]

    -- A reseller's scope is asked by an administrator, or by the reseller itself.
    pub reseller_row :
        (user : Text) (u : PanelUser)
        → text_eq sess.role (text "admin")
            || (text_eq sess.role (text "reseller") && text_eq user sess.username)
          ≡ true
        → panel_by_name (trim_space user) (listed us) ≡ some u
        → IsReached sess us (trim_space user) × AllUnder u.id
    reseller_row user u h e =
        let (row, name) =
          panel_by_name-found (RowReached sess us) (trim_space user) (listed us) u
            (listed-reached sess us) e in
        let (is_own, _) =
          panel_by_name-found (IsOwn sess) (trim_space user) (listed us) u
            (sort-All _ (IsOwn sess) us own) e in
        elim (Bool-cases (text_eq sess.role (text "admin"))) [
          | inl f ↦ (
            subst (IsReached sess us) name (row (reachable_admin sess u f)),
            λ v _. reachable_admin sess v f,
          )
          | inr f ↦
              let r : text_eq sess.role (text "reseller") ≡ true = ground arith in
              let at_own : text_eq user sess.username ≡ true = ground arith in
              let own_name =
                name ∙ (ap trim_space ((text_eq_iff user sess.username).0 at_own) ∙ trimmed) in
              (
                subst (IsReached sess us) name (row (reachable_own sess u own_name)),
                own_under u.id (is_own ((text_eq_iff u.username sess.username).1 own_name)) r,
              )
        ]
