-- ===== src/Web/Login/Laws.antt =====
-- Who gets a session from `handleLogin` of internal/web/server.go, and the lock after wrong passwords.
use ngm.Base.{
  ℕ, ◌+◌, ◌*◌, ◌≤◌, ◌<◌, ◌≡◌, refl, Bool, true, false, not, List, [], ◌∷◌, Option, none, some, leb,
  Bool-cases, inl, inr, if◌then◌else◌, All, arith, ap, ==_iff, ◌∙◌,
}
use ngm.Text.{Text, trim_space}
use ngm.Auth.{Hashes}
use ngm.Store.{PanelUser}
use ngm.Store.PanelUsers.{
  get_panel_user_by_username, increment_failed_attempts, lock_panel_user, update_row, update_option,
  get_panel_user-update, incremented, locked,
}
use ngm.Web.Session.{Session, create}
use ngm.Web.Login.{
  Request, Response, login_page, Server, method_post, is_locked, authenticates, login_failed,
  login_accepted, login_user, login_with, handle_login, invalid, locked_message, stored, user_read,
}

-- The user of a request.
abbrev pub user_of : Request → Server → Option PanelUser
user_of r s = get_panel_user_by_username (trim_space r.username) s.users

locked-username : (now until : ℕ) (u : PanelUser) → (locked now until u).username ≡ u.username
unfolding locked
locked-username now until u = refl

module _ (hashes : Hashes) where
  -- An account that the request may open.
  abbrev pub Opens : Request → PanelUser → Type 0
  Opens r u =
      (u.enabled ≡ true)
      × ((is_locked r.now u.locked_until ≡ false) × (authenticates hashes r u ≡ true))

  -- The server after the wrong password that locks.
  abbrev locked_server : Request → PanelUser → Server → Server
  locked_server r u s = record s {
    users =
        stored r.faults.lock_fails (lock_panel_user r.later u.id (r.later + 15 * 60))
          (stored r.faults.count_fails (increment_failed_attempts r.later u.id) s.users);
  }

  -- What a login that succeeds rests on.
  abbrev pub LoggedIn : Request → Server → Text → Option PanelUser → Type 0
  LoggedIn r s token none = ⊥
  LoggedIn r s token (some u) =
      Opens r u
      × ((sess : Session) × (((create r.later r.random u.id u.username u.role s.sessions).0
              ≡ some sess)
            × (sess.token ≡ token)))

  -- The server after a list of login requests.
  unfoldable pub logins : List Request → Server → Server
  logins [] s = s
  logins (r ∷ rs) s = logins rs (handle_login hashes r s).1

  -- A request that posts the name before the time.
  abbrev pub PostsBefore : Text → ℕ → Request → Type 0
  PostsBefore name until r =
      (r.method ≡ method_post) × ((trim_space r.username ≡ name) × (r.now < until))

  locked_page :
      (s : Server) (b : Bool) (x : Response × Server)
      → (if not b
          then (login_page invalid, s)
          else if true
          then (login_page locked_message, s)
          else x).1
        ≡ s
  locked_page s true x = refl
  locked_page s false x = refl

  is_locked_before : (now until : ℕ) → now < until → is_locked now (some until) ≡ true
  unfolding is_locked
  is_locked_before now until h = ground arith

  login_locked :
      (r : Request) (s : Server) (name : Text) (until : ℕ) (u : PanelUser)
      → get_panel_user_by_username name s.users ≡ some u
      → u.locked_until ≡ some until
      → PostsBefore name until r
      → (handle_login hashes r s).1 ≡ s
  unfolding handle_login login_with login_user user_read
  login_locked r s name until u is_user is_lock posts = elim (Bool-cases r.faults.read_fails) [
    | inl e ↦ simp (posts.0, e) refl
    | inr e ↦
        simp (posts.0, e, posts.1.0, is_user, is_lock, is_locked_before r.now until posts.1.1)
          (locked_page s u.enabled (
            if authenticates hashes r u
            then login_accepted hashes r u s
            else login_failed hashes r u s))
  ]

  logins_locked :
      (rs : List Request) (s : Server) (name : Text) (until : ℕ) (u : PanelUser)
      → get_panel_user_by_username name s.users ≡ some u
      → u.locked_until ≡ some until
      → All (PostsBefore name until) rs
      → logins rs s ≡ s
  unfolding logins
  logins_locked [] s name until u is_user is_lock posts = refl
  logins_locked (r ∷ rs) s name until u is_user is_lock posts =
      ap (logins rs) (login_locked r s name until u is_user is_lock posts.0)
      ∙ logins_locked rs s name until u is_user is_lock posts.1

  -- A wrong password for an account that had four or more failures, where the user is read and the lock
  -- is stored.
  abbrev pub FailsAgain : Request → PanelUser → Type 0
  FailsAgain r u =
      (r.method ≡ method_post)
      × ((u.enabled ≡ true)
          × ((is_locked r.now u.locked_until ≡ false)
              × ((authenticates hashes r u ≡ false)
                  × ((4 ≤ u.failed_attempts)
                      × ((r.faults.read_fails ≡ false) × (r.faults.lock_fails ≡ false))))))

  login_locks :
      (r : Request) (s : Server) (u : PanelUser)
      → user_of r s ≡ some u
      → FailsAgain r u
      → handle_login hashes r s ≡ (login_page locked_message, locked_server r u s)
  unfolding handle_login login_with login_user login_failed user_read
  login_locks r s u is_user (post, (en, (lk, (au, (four, (read, stores)))))) =
      simp (post, read, is_user, en, lk, au, leb_true 5 (u.failed_attempts + 1) (omega arith)) refl
    where
      leb_true : (m n : ℕ) → m ≤ n → leb m n ≡ true
      leb_true m n h = ground arith

  -- The row after the count, which may fail.
  counted_row : Request → PanelUser → PanelUser
  counted_row r u = if r.faults.count_fails then u else incremented r.later u

  counted_user :
      (r : Request) (s : Server) (u : PanelUser)
      → user_of r s ≡ some u
      → get_panel_user_by_username
          (trim_space r.username)
          (stored r.faults.count_fails (increment_failed_attempts r.later u.id) s.users)
        ≡ some (counted_row r u)
  unfolding increment_failed_attempts update_option update_row incremented stored counted_row
  counted_user r s u is_user = elim (Bool-cases r.faults.count_fails) [
    | inl e ↦ rw e is_user
    | inr e ↦ rw e (
        get_panel_user-update (incremented r.later) incremented_username u.id
          (trim_space r.username) s.users
        ∙ ap (update_option (incremented r.later) u.id) is_user
        ∙ simp ((==_iff u.id u.id).1 refl) refl)
  ]
    where
      incremented_username : (v : PanelUser) → (incremented r.later v).username ≡ v.username
      incremented_username v = refl

  counted_row-id : (r : Request) (u : PanelUser) → (counted_row r u).id ≡ u.id
  unfolding counted_row incremented
  counted_row-id r u = elim (Bool-cases r.faults.count_fails) [
    | inl e ↦ rw e refl
    | inr e ↦ rw e refl
  ]

  locked_user :
      (r : Request) (s : Server) (u : PanelUser)
      → user_of r s ≡ some u
      → r.faults.lock_fails ≡ false
      → user_of r (locked_server r u s)
        ≡ some (locked r.later (r.later + 15 * 60) (counted_row r u))
  unfolding lock_panel_user update_option update_row stored counted_row
  locked_user r s u is_user stores = rw stores (
      get_panel_user-update (locked r.later (r.later + 15 * 60)) locked_username u.id
        (trim_space r.username) _
      ∙ (ap (update_option (locked r.later (r.later + 15 * 60)) u.id) (counted_user r s u is_user)
          ∙ simp (counted_row-id r u, (==_iff u.id u.id).1 refl) refl))
    where
      locked_username :
          (v : PanelUser) → (locked r.later (r.later + 15 * 60) v).username ≡ v.username
      locked_username v = locked-username r.later (r.later + 15 * 60) v

  -- After a wrong password for an account with four failures or more, where the call that locks it does
  -- not fail, the account is locked for 15 minutes: whatever is posted for it before they are over, and
  -- whatever calls of the database fail then, changes nothing.
  pub lockout :
      (r : Request) (s : Server) (u : PanelUser) (rs : List Request)
      → user_of r s ≡ some u
      → FailsAgain r u
      → All (PostsBefore (trim_space r.username) (r.later + 15 * 60)) rs
      → logins rs (handle_login hashes r s).1 ≡ (handle_login hashes r s).1
  unfolding locked
  lockout r s u rs is_user fails posts = simp (login_locks r s u is_user fails) (
      logins_locked rs (locked_server r u s) (trim_space r.username) (r.later + 15 * 60)
        (locked r.later (r.later + 15 * 60) (counted_row r u))
        (locked_user r s u is_user fails.1.1.1.1.1.1) refl posts)
