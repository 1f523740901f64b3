-- ===== src/Web/Users/Laws.antt =====
-- Whose rows the requests to /ui/users of internal/web/server.go change.
use ngm.Base.{
  ℕ, ◌≡◌, refl, sym, ap, ◌∙◌, Bool, true, false, not, ◌||◌, some, Result, ok, err, ◌==◌, ==_iff,
  if◌then◌else◌, Bool-cases, inl, inr, arith, return, fail, try, ◌>>=◌,
}
use ngm.Text.{Text, trim_space}
use ngm.Store.{PanelUser}
use ngm.Store.PanelUsers.{get_panel_user_by_username}
use ngm.Store.Db.{Db, query_row, of_option, to_result}
use ngm.Store.Db.PanelUsers.{panel_user_with_id, panel_user_named}
use ngm.Sites.Panel.{Panel, Act, on_row, lift}
use ngm.Web.Session.{Session}
use ngm.Web.Login.{Method, method_get, method_post, method_other}
use ngm.Web.Access.{can_manage_panel_user}
use ngm.Web.Forms.{Form, Reply, attempt, followed, forbidden}
use ngm.Web.Users.{
  UserHost, panel_user, manageable, is_user, edit_by, handle_user_edit, only_post, switched,
  handle_user_suspend, handle_user_enable, deleted, handle_user_delete,
}
use ngm.Web.Users.Frame.{row_of, KeepsOthers}
use ngm.Web.Users.Steps.{switched-KeepsOthers, deleted-KeepsOthers, edit_by-KeepsOthers}

-- Every user that is found by name is the row with its id.
abbrev pub OneRow : Db → Type 0
OneRow db =
    (name : Text) (u : PanelUser)
    → get_panel_user_by_username name db.panel_users ≡ some u
    → panel_user_with_id u.id db.panel_users ≡ some u

module _ (host : UserHost) (sess : Session) where
  open host use {fault}

  panel_user-users :
      (name : Text) (p : Panel) → (panel_user host name p).1.db.panel_users ≡ p.db.panel_users
  unfolding panel_user panel_user_named on_row query_row lift to_result of_option ◌>>=◌ return fail
  panel_user-users name p = ground arith

  panel_user-found :
      (name : Text) (p : Panel) (t : PanelUser)
      → (panel_user host name p).0 ≡ ok t
      → get_panel_user_by_username (trim_space name) p.db.panel_users ≡ some t
  unfolding panel_user panel_user_named on_row query_row lift to_result of_option ◌>>=◌ return fail
  panel_user-found name p t h = ground arith

  module _ (p : Panel) (one : OneRow p.db) (i : ℕ) (u : PanelUser) (there : row_of i p.db ≡ some u)
      (foreign : can_manage_panel_user sess u ≡ false) where
    -- A user that may be managed has another id.
    other_id :
        (t : PanelUser) (name : Text)
        → get_panel_user_by_username name p.db.panel_users ≡ some t
        → can_manage_panel_user sess t ≡ true
        → (i == t.id) ≡ false
    other_id t name h may = elim (Bool-cases (i == t.id)) [
      | inr e ↦ e
      | inl e ↦
          let same : i ≡ t.id = (==_iff i t.id).0 e in
          let row : row_of i p.db ≡ some t = ap (λ n. row_of n p.db) same ∙ one name t h in
          let is_t : u ≡ t = cc in
          let no : true ≡ false =
            (sym may) ∙ ap (can_manage_panel_user sess) (sym is_t) ∙ foreign in
          cc
    ]

    after_test :
        (next : PanelUser → Act Reply) (t : PanelUser) (name : Text) (q : Panel)
        → ((v : PanelUser) → KeepsOthers v.id (next v))
        → get_panel_user_by_username name p.db.panel_users ≡ some t
        → row_of i q.db ≡ some u
        → (b : Bool)
        → row_of i
            ((if b || not (can_manage_panel_user sess t) then return forbidden else next t) q).1.db
          ≡ some u
    unfolding return
    after_test next t name q k h now true = now
    after_test next t name q k h now false = elim (Bool-cases (can_manage_panel_user sess t)) [
      | inl may ↦ rw may ((k t).kept q i (other_id t name h may) ∙ now)
      | inr may ↦ rw may now
    ]

    followed-spares :
        (next : PanelUser → Act Reply) (name : Text) (x : Result PanelUser × Panel)
        → ((v : PanelUser) → KeepsOthers v.id (next v))
        → ((t : PanelUser) → x.0 ≡ ok t → get_panel_user_by_username name p.db.panel_users ≡ some t)
        → row_of i x.1.db ≡ some u
        → row_of i
            (followed
              (λ e. forbidden)
              (λ target.
                if not (is_user target) || not (can_manage_panel_user sess target)
                then return forbidden
                else next target)
              x.0
              x.1).1.db
          ≡ some u
    unfolding followed return
    followed-spares next name (ok t, q) k h now =
        after_test next t name q k (h t refl) now (not (is_user t))
    followed-spares next name (err e, q) k h now = now

    manageable-spares :
        (next : PanelUser → Act Reply) (name : Text)
        → ((v : PanelUser) → KeepsOthers v.id (next v))
        → row_of i (manageable host sess name next p).1.db ≡ some u
    unfolding manageable attempt try ◌>>=◌
    manageable-spares next name k =
        followed-spares next (trim_space name) (panel_user host name p) k (panel_user-found name p)
          (ap (panel_user_with_id i) (panel_user-users name p) ∙ there)

    only_post-spares :
        (m : Method) (a : Act Reply)
        → row_of i (a p).1.db ≡ some u
        → row_of i (only_post host m a p).1.db ≡ some u
    unfolding only_post return
    only_post-spares method_get a h = there
    only_post-spares method_post a h = h
    only_post-spares method_other a h = there

  -- Whatever fails, a request to edit, suspend, enable or delete a user leaves the row of every user of
  -- the panel that the session may not manage, where each user found by name is the row with its id.
  pub user_requests-spare :
      (r : Form) (p : Panel) (i : ℕ) (u : PanelUser)
      → OneRow p.db
      → panel_user_with_id i p.db.panel_users ≡ some u
      → can_manage_panel_user sess u ≡ false
      → (panel_user_with_id i (handle_user_edit host sess r p).1.db.panel_users ≡ some u)
        × (panel_user_with_id i (handle_user_suspend host sess r p).1.db.panel_users ≡ some u)
        × (panel_user_with_id i (handle_user_enable host sess r p).1.db.panel_users ≡ some u)
        × (panel_user_with_id i (handle_user_delete host sess r p).1.db.panel_users ≡ some u)
  unfolding handle_user_edit handle_user_suspend handle_user_enable handle_user_delete
  user_requests-spare r p i u one there foreign = (
    manageable-spares p one i u there foreign (edit_by host r.method sess r) _
        (λ v. edit_by-KeepsOthers host sess r v.id r.method v refl),
    only_post-spares p one i u there foreign r.method _ (
        manageable-spares p one i u there foreign (switched host false r) _
          (λ v. switched-KeepsOthers host sess r v.id false v refl)),
    only_post-spares p one i u there foreign r.method _ (
        manageable-spares p one i u there foreign (switched host true r) _
          (λ v. switched-KeepsOthers host sess r v.id true v refl)),
    only_post-spares p one i u there foreign r.method _ (
        manageable-spares p one i u there foreign (deleted host r) _
          (λ v. deleted-KeepsOthers host sess r v.id v refl)),
  )
