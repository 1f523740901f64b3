-- ===== src/Web/Users/Frame.antt =====
-- Code of the handlers of internal/web/server.go that changes no row of a panel user but one: a rule for
-- each way of composing it and for each statement.
use ngm.Base.{
  ℕ, ◌≡◌, refl, ◌∙◌, Bool, true, false, List, [], ◌∷◌, Option, none, some, Error, Result, ok, err,
  ◌==◌, if◌then◌else◌, Option-cases, inl, inr, arith, bind_step, return, try, ◌>>=◌, ◌>>◌,
}
use ngm.Text.{Text}
use ngm.Os.{Io}
use ngm.Store.{PanelUser}
use ngm.Store.PanelUsers.{update_row, update_rows}
use ngm.Store.Db.{Db, Sql, Lookup, exec, query, query_row}
use ngm.Store.Db.Users.{row_result}
use ngm.Store.Db.PanelUsers.{
  panel_user_with_id, update_panel_user, delete_panel_user, get_panel_user_by_id, updated,
  remove_panel_user,
}
use ngm.Store.Db.Packages.{put_assignment}
use ngm.Sites.Panel.{Panel, Act, on_db, on_row, on_files}
use ngm.Web.Forms.{Reply, attempt, followed}
use ngm.Web.Users.{UserHost, ignored}

abbrev pub row_of : ℕ → Db → Option PanelUser
row_of id db = panel_user_with_id id db.panel_users

-- Whatever fails, no row but that with this id changes.
pub record KeepsOthers {A : Type 0} (id : ℕ) (m : Act A) : Type 0 where
  pub kept : (p : Panel) (i : ℕ) → (i == id) ≡ false → row_of i (m p).1.db ≡ row_of i p.db

module _ (id : ℕ) where
  module _ {A B : Type 0} where
    bind_kept :
        (p : Panel) (f : A → Act B) (x : Result A × Panel) (i : ℕ)
        → (i == id) ≡ false
        → ((a : A) → KeepsOthers id (f a))
        → row_of i x.1.db ≡ row_of i p.db
        → row_of i (bind_step x f).1.db ≡ row_of i p.db
    bind_kept p f (ok a, p') i h k e = (k a).kept p' i h ∙ e
    bind_kept p f (err e', p') i h k e = e

    pub >>=-KeepsOthers :
        {m : Act A} {f : A → Act B}
        → KeepsOthers id m
        → ((a : A) → KeepsOthers id (f a))
        → KeepsOthers id (m >>= f)
    unfolding ◌>>=◌
    >>=-KeepsOthers {m} {f} h k = record {
      kept = λ p i e. bind_kept p f (m p) i e k (h.kept p i e);
    }

    pub >>-KeepsOthers :
        {m : Act A} {f : Act B} → KeepsOthers id m → KeepsOthers id f → KeepsOthers id (m >> f)
    unfolding ◌>>◌
    >>-KeepsOthers {m} {f} h k = record {
      kept = λ p i e. bind_kept p (λ _. f) (m p) i e (λ _. k) (h.kept p i e);
    }

  return_reply : (a : Reply) → KeepsOthers id (return a)
  unfolding return
  return_reply a = record { kept = λ p i e. refl }

  module _ {A : Type 0} where
    pub return-KeepsOthers : (a : A) → KeepsOthers id (return a)
    unfolding return
    return-KeepsOthers a = record { kept = λ p i e. refl }

    pub try-KeepsOthers : {m : Act A} → KeepsOthers id m → KeepsOthers id (try m)
    unfolding try
    try-KeepsOthers h = record { kept = h.kept }

    pub on_files-KeepsOthers : (m : Io A) → KeepsOthers id (on_files m)
    unfolding on_files
    on_files-KeepsOthers m = record { kept = λ p i e. refl }

    pub on_db-KeepsOthers :
        (m : Sql A)
        → ((db : Db) (i : ℕ) → (i == id) ≡ false → row_of i (m db).1 ≡ row_of i db)
        → KeepsOthers id (on_db m)
    unfolding on_db
    on_db-KeepsOthers m h = record { kept = λ p i e. h p.db i e }

    pub on_row-KeepsOthers :
        (m : Db → A × Db)
        → ((db : Db) (i : ℕ) → (i == id) ≡ false → row_of i (m db).1 ≡ row_of i db)
        → KeepsOthers id (on_row m)
    unfolding on_row
    on_row-KeepsOthers m h = record { kept = λ p i e. h p.db i e }

    pub attempt-KeepsOthers :
        {m : Act A} (refused : Error → Reply) (next : A → Act Reply)
        → KeepsOthers id m
        → ((a : A) → KeepsOthers id (next a))
        → KeepsOthers id (attempt m refused next)
    unfolding attempt followed
    attempt-KeepsOthers {m} refused next h k = >>=-KeepsOthers (try-KeepsOthers h) after
      where
        after : (r : Result A) → KeepsOthers id (followed refused next r)
        after (ok a) = k a
        after (err e) = return_reply (refused e)

  pub ignored-KeepsOthers :
      {A : Type 0} (h : UserHost) {m : Act A} → KeepsOthers id m → KeepsOthers id (ignored h m)
  unfolding ignored
  ignored-KeepsOthers h k = >>-KeepsOthers (try-KeepsOthers k) (return-KeepsOthers tt)

  pub if-KeepsOthers :
      {A : Type 0} (b : Bool) {m n : Act A}
      → KeepsOthers id m
      → KeepsOthers id n
      → KeepsOthers id (if b then m else n)
  if-KeepsOthers true h k = h
  if-KeepsOthers false h k = k

  module _ (fault : ℕ → Option Text) where
    pub query-rows :
        {A : Type 0} (f : Db → A) (db : Db) (i : ℕ) → row_of i (query fault f db).1 ≡ row_of i db
    unfolding query
    query-rows f db i = ground arith

    pub query_row-rows :
        {A : Type 0} (f : Db → Option A) (db : Db) (i : ℕ)
        → row_of i (query_row fault f db).1 ≡ row_of i db
    unfolding query_row
    query_row-rows f db i = ground arith

    pub exec-rows :
        (f : Db → Db) (db : Db) (i : ℕ)
        → row_of i (f db) ≡ row_of i db
        → row_of i (exec fault f db).1 ≡ row_of i db
    unfolding exec
    exec-rows f db i h = ground arith

module _ (fault : ℕ → Option Text) where
  -- A statement, and then a look-up of its row.
  pub exec_row-rows :
      {A : Type 0} (f : Db → Db) (look : Db → Lookup A × Db) (db : Db) (i : ℕ)
      → row_of i (f db) ≡ row_of i db
      → ((t : Db) → row_of i (look t).1 ≡ row_of i t)
      → row_of i ((exec fault f >> (λ t. row_result fault (look t))) db).1 ≡ row_of i db
  unfolding exec ◌>>◌ row_result
  exec_row-rows f look db i h k = elim (Option-cases (fault db.clock)) [
    | inl e ↦ rw (e, exec) (k _ ∙ h)
    | inr (m, e) ↦ rw (e, exec) refl
  ]

  updated-id : (now : ℕ) (new u : PanelUser) → (updated now new u).id ≡ u.id
  unfolding updated
  updated-id now new u = refl

  with_id-update :
      (f : PanelUser → PanelUser) (id i : ℕ) (us : List PanelUser)
      → ((u : PanelUser) → (f u).id ≡ u.id)
      → (i == id) ≡ false
      → panel_user_with_id i (update_rows f id us) ≡ panel_user_with_id i us
  unfolding panel_user_with_id update_rows update_row
  with_id-update f id i [] k h = refl
  with_id-update f id i (u ∷ us) k h = ground (arith, with_id-update f id i us k, k u)

  with_id-remove :
      (id i : ℕ) (us : List PanelUser)
      → (i == id) ≡ false
      → panel_user_with_id i (remove_panel_user id us) ≡ panel_user_with_id i us
  unfolding panel_user_with_id remove_panel_user
  with_id-remove id i [] h = refl
  with_id-remove id i (u ∷ us) h = ground (arith, with_id-remove id i us)

  pub update_panel_user-rows :
      (u : PanelUser) (db : Db) (i : ℕ)
      → (i == u.id) ≡ false
      → row_of i (update_panel_user fault u db).1 ≡ row_of i db
  unfolding update_panel_user get_panel_user_by_id
  update_panel_user-rows u db i h =
      exec_row-rows _ _ db i
        (with_id-update (updated db.clock u) u.id i db.panel_users (updated-id db.clock u) h)
        (λ t. query_row-rows 0 fault _ t i)

  pub delete_panel_user-rows :
      (id : ℕ) (db : Db) (i : ℕ)
      → (i == id) ≡ false
      → row_of i (delete_panel_user fault id db).1 ≡ row_of i db
  unfolding delete_panel_user
  delete_panel_user-rows id db i h =
      exec-rows id fault _ db i (with_id-remove id i db.panel_users h)

  pub put_assignment-users :
      (user pkg by : ℕ) (o : Option _) (db : Db)
      → (put_assignment user pkg by o db).panel_users ≡ db.panel_users
  unfolding put_assignment
  put_assignment-users user pkg by none db = refl
  put_assignment-users user pkg by (some a) db = refl
