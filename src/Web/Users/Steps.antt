-- ===== src/Web/Users/Steps.antt =====
-- What the handlers of internal/web/server.go do with a user they have looked up: no other row changes.
use ngm.Base.{ℕ, ◌≡◌, refl, ap, Bool, true, false}
use ngm.Text.{Text}
use ngm.Store.{PanelUser}
use ngm.Store.Db.PanelUsers.{
  panel_user_with_id, update_panel_user, delete_panel_user, list_panel_users,
}
use ngm.Store.Db.Packages.{list_packages, assign_package, unassign_package, get_user_package}
use ngm.Sites.Panel.{Act, on_db, when}
use ngm.Web.Session.{Session}
use ngm.Web.Login.{Method, method_get, method_post, method_other}
use ngm.Web.Forms.{Form}
use ngm.Web.Users.{
  UserHost, users_table, table_or_redirect, repackaged, set_suspended, post_edit, edit_form,
  edit_by, switched, deleted,
}
use ngm.Web.Users.Frame.{
  >>-KeepsOthers, return-KeepsOthers, try-KeepsOthers, on_files-KeepsOthers, on_db-KeepsOthers,
  on_row-KeepsOthers, attempt-KeepsOthers, ignored-KeepsOthers, if-KeepsOthers, query-rows,
  query_row-rows, exec-rows, update_panel_user-rows, delete_panel_user-rows, put_assignment-users,
  KeepsOthers,
}

module _ (host : UserHost) (sess : Session) (r : Form) (id : ℕ) where
  open host use {fault}

  pub update-KeepsOthers :
      (u : PanelUser) → u.id ≡ id → KeepsOthers id (on_db (update_panel_user fault u))
  update-KeepsOthers u same =
      on_db-KeepsOthers id (update_panel_user fault u)
        (λ db i h. update_panel_user-rows fault u db i (rw same h))

  pub assign-KeepsOthers :
      (user pkg by : ℕ) → KeepsOthers id (on_db (assign_package fault user pkg by))
  unfolding assign_package
  assign-KeepsOthers user pkg by =
      on_db-KeepsOthers id (assign_package fault user pkg by) (λ db i h.
        exec-rows id fault _ db i
          (ap (panel_user_with_id i) (put_assignment-users fault user pkg by _ db)))

  pub unassign-KeepsOthers : (user : ℕ) → KeepsOthers id (on_db (unassign_package fault user))
  unfolding unassign_package
  unassign-KeepsOthers user =
      on_db-KeepsOthers id (unassign_package fault user) (λ db i h. exec-rows id fault _ db i refl)

  pub table-KeepsOthers : (to : Text) → KeepsOthers id (table_or_redirect host r to)
  unfolding table_or_redirect users_table list_panel_users
  table-KeepsOthers to =
      if-KeepsOthers id r.hx
        (attempt-KeepsOthers id _ _
          (on_db-KeepsOthers id (list_panel_users fault) (λ db i h. query-rows id fault _ db i))
          (λ items. return-KeepsOthers id _))
        (return-KeepsOthers id _)

  pub suspended-KeepsOthers : (b : Bool) (user : Text) → KeepsOthers id (set_suspended host b user)
  unfolding set_suspended
  suspended-KeepsOthers true user = ignored-KeepsOthers id host (on_files-KeepsOthers id _)
  suspended-KeepsOthers false user = ignored-KeepsOthers id host (on_files-KeepsOthers id _)

  pub switched-KeepsOthers :
      (b : Bool) (u : PanelUser) → u.id ≡ id → KeepsOthers id (switched host b r u)
  unfolding switched
  switched-KeepsOthers b u same =
      attempt-KeepsOthers id _ _ (update-KeepsOthers (record u { enabled = b }) same)
        λ row. >>-KeepsOthers id (suspended-KeepsOthers b _) (table-KeepsOthers _)

  pub deleted-KeepsOthers : (u : PanelUser) → u.id ≡ id → KeepsOthers id (deleted host r u)
  unfolding deleted
  deleted-KeepsOthers u same =
      >>-KeepsOthers id (ignored-KeepsOthers id host (unassign-KeepsOthers u.id)) (
        attempt-KeepsOthers id _ _
          (on_db-KeepsOthers id (delete_panel_user fault u.id)
            (λ db i h. delete_panel_user-rows fault u.id db i (rw same h)))
          λ done.
            >>-KeepsOthers id (ignored-KeepsOthers id host (on_files-KeepsOthers id _))
              (table-KeepsOthers _))

  pub when-KeepsOthers :
      (b : Bool) {m : Act (Unit {0})} → KeepsOthers id m → KeepsOthers id (when b m)
  unfolding when
  when-KeepsOthers b h = if-KeepsOthers id b h (return-KeepsOthers id tt)

  pub post_edit-KeepsOthers : (u : PanelUser) → u.id ≡ id → KeepsOthers id (post_edit host sess r u)
  unfolding post_edit repackaged
  post_edit-KeepsOthers u same =
      >>-KeepsOthers id
        (when-KeepsOthers _ (ignored-KeepsOthers id host (on_files-KeepsOthers id _)))
        (attempt-KeepsOthers id _ _ (update-KeepsOthers _ same) λ row.
          >>-KeepsOthers id (suspended-KeepsOthers _ _) (
            >>-KeepsOthers id
              (if-KeepsOthers id _ (ignored-KeepsOthers id host (assign-KeepsOthers _ _ _))
                (ignored-KeepsOthers id host (unassign-KeepsOthers _)))
              (return-KeepsOthers id _)))

  pub edit_form-KeepsOthers : (u : PanelUser) → KeepsOthers id (edit_form host sess u)
  unfolding edit_form list_packages get_user_package
  edit_form-KeepsOthers u =
      >>-KeepsOthers id
        (try-KeepsOthers id
          (on_db-KeepsOthers id (list_packages fault) (λ db i h. query-rows id fault _ db i)))
        (>>-KeepsOthers id
          (on_row-KeepsOthers id (get_user_package fault u.id)
            (λ db i h. query_row-rows id fault _ db i))
          (return-KeepsOthers id _))

  pub edit_by-KeepsOthers :
      (m : Method) (u : PanelUser) → u.id ≡ id → KeepsOthers id (edit_by host m sess r u)
  unfolding edit_by
  edit_by-KeepsOthers method_get u same = edit_form-KeepsOthers u
  edit_by-KeepsOthers method_post u same = post_edit-KeepsOthers u same
  edit_by-KeepsOthers method_other u same = return-KeepsOthers id _
