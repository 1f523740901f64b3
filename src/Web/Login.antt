-- ===== src/Web/Login.antt =====
-- `handleLogin` of internal/web/server.go. A time is a number of seconds.
pub mod Laws
use ngm.Base.{
  ℕ, ◌+◌, ◌*◌, ◌≡◌, Bool, true, false, not, List, Option, none, some, leb, ltb, if◌then◌else◌,
}
use ngm.Text.{Text, text, text_eq, is_empty, trim_space}
use ngm.Auth.{Shadow, Hashes, AuthError, verify_shadow_password}
use ngm.Store.{PanelUser}
use ngm.Store.PanelUsers.{
  get_panel_user_by_username, increment_failed_attempts, lock_panel_user, reset_failed_attempts,
  update_panel_user_last_login,
}
use ngm.Web.Session.{Session, SessionStore, create}

pub data Method : Type 0 where
  method_get : Method
  method_post : Method
  method_other : Method

-- The login page with its message, the redirect to the dashboard with the cookie, or an error.
pub data Response : Type 0 where
  login_page : Text → Response
  dashboard : Text → Response
  method_not_allowed : Response

-- What the handler shares with the others: the table of panel users, and the sessions.
pub record Server : Type 0 where
  pub users : List PanelUser
  pub sessions : SessionStore

-- Which calls of the database fail: the look-up of the user, the count of a failure, the lock, the reset
-- of the count, and the time of the login.
pub record Faults : Type 0 where
  pub read_fails : Bool
  pub count_fails : Bool
  pub lock_fails : Bool
  pub reset_fails : Bool
  pub stamp_fails : Bool

-- What a request meets: the time at the test of the lock and the time after it, the random bytes of
-- the session, /etc/shadow, and the failures of the database.
pub record Request : Type 0 where
  pub method : Method
  pub username : Text
  pub password : Text
  pub now : ℕ
  pub later : ℕ
  pub random : Option (List ℕ)
  pub shadow : Shadow
  pub faults : Faults

abbrev pub invalid : Text
unfolding text
invalid = text "Invalid credentials"

abbrev pub locked_message : Text
unfolding text
locked_message = text "Account temporarily locked, try again later"

-- `u.LockedUntil != nil && u.LockedUntil.After(now)`
unfoldable pub is_locked : ℕ → Option ℕ → Bool
is_locked now none = false
is_locked now (some until) = ltb now until

unfoldable pub accepted : Option AuthError → Bool
accepted none = true
accepted (some e) = false

unfoldable pub shadow_name : PanelUser → Text
shadow_name u = if is_empty (trim_space u.system_user) then u.username else trim_space u.system_user

-- A statement that fails changes no row.
unfoldable pub stored : Bool → (List PanelUser → List PanelUser) → List PanelUser → List PanelUser
stored true f us = us
stored false f us = f us

-- `s.st.GetPanelUserByUsername`, where every error counts as no user.
unfoldable pub user_read : Request → List PanelUser → Option PanelUser
user_read r us =
    let u = get_panel_user_by_username (trim_space r.username) us in
    if r.faults.read_fails then none else u

module _ (hashes : Hashes) where
  unfoldable pub authenticates : Request → PanelUser → Bool
  authenticates r u =
      if text_eq u.role (text "user")
      then accepted (verify_shadow_password hashes r.shadow (shadow_name u) r.password)
      else hashes.bcrypt_compare u.password_hash r.password

  -- `authErr != nil`: the errors of the two statements are dropped.
  unfoldable pub login_failed : Request → PanelUser → Server → Response × Server
  login_failed r u s =
      let counted = stored r.faults.count_fails (increment_failed_attempts r.later u.id) s.users in
      if leb 5 (u.failed_attempts + 1)
      then (
        login_page locked_message,
        record s {
          users =
              stored r.faults.lock_fails (lock_panel_user r.later u.id (r.later + 15 * 60)) counted;
        },
      )
      else (login_page invalid, record s { users = counted })

  unfoldable pub session_made :
      Request → PanelUser → Server → Option Session × SessionStore → Response × Server
  session_made r u s (none, sessions) =
      (login_page (text "Login failed"), record s { sessions = sessions })
  session_made r u s (some sess, sessions) = (
    dashboard sess.token,
    record {
      users =
          stored r.faults.stamp_fails (update_panel_user_last_login r.later u.id)
            (stored r.faults.reset_fails (reset_failed_attempts r.later u.id) s.users);
      sessions = sessions;
    },
  )

  unfoldable pub login_accepted : Request → PanelUser → Server → Response × Server
  login_accepted r u s =
      session_made r u s (create r.later r.random u.id u.username u.role s.sessions)

  unfoldable pub login_user : Request → Option PanelUser → Server → Response × Server
  login_user r none s = (login_page invalid, s)
  login_user r (some u) s =
      if not u.enabled
      then (login_page invalid, s)
      else if is_locked r.now u.locked_until
      then (login_page locked_message, s)
      else if authenticates r u
      then login_accepted r u s
      else login_failed r u s

  unfoldable pub login_with : Method → Request → Server → Response × Server
  login_with method_get r s = (login_page (text ""), s)
  login_with method_post r s = login_user r (user_read r s.users) s
  login_with method_other r s = (method_not_allowed, s)

  unfoldable pub handle_login : Request → Server → Response × Server
  handle_login r s = login_with r.method r s
