-- ===== src/Store/PanelUsers.antt =====
-- The table of panel users in internal/store/sqlite/sqlite.go, as a list of its rows, with the
-- statements that the login runs on it. Which of them fail is said by those who call them.
use ngm.Base.{
  ℕ, ◌+◌, ◌≡◌, refl, Bool, true, false, List, [], ◌∷◌, Option, none, some, ◌==◌, if◌then◌else◌, map,
  arith,
}
use ngm.Text.{Text, text_eq}
use ngm.Store.{PanelUser}

-- `WHERE username=?`
unfoldable pub get_panel_user_by_username : Text → List PanelUser → Option PanelUser
get_panel_user_by_username name [] = none
get_panel_user_by_username name (u ∷ us) =
    let rest = get_panel_user_by_username name us in
    if text_eq u.username name then some u else rest

-- `UPDATE panel_users SET ... WHERE id=?`
unfoldable pub update_row : (PanelUser → PanelUser) → ℕ → PanelUser → PanelUser
update_row f id u = if u.id == id then f u else u

unfoldable pub update_rows : (PanelUser → PanelUser) → ℕ → List PanelUser → List PanelUser
update_rows f id us = map (update_row f id) us

-- What the statements set; `now` is the database's time.
unfoldable pub incremented : ℕ → PanelUser → PanelUser
incremented now u = record u { failed_attempts = u.failed_attempts + 1; updated_at = now }

unfoldable pub locked : ℕ → ℕ → PanelUser → PanelUser
locked now until u = record u { locked_until = some until; updated_at = now }

unfoldable pub reset : ℕ → PanelUser → PanelUser
reset now u = record u { failed_attempts = 0; locked_until = none; updated_at = now }

unfoldable pub logged_in : ℕ → PanelUser → PanelUser
logged_in now u = record u { last_login_at = some now; updated_at = now }

unfoldable pub increment_failed_attempts : ℕ → ℕ → List PanelUser → List PanelUser
increment_failed_attempts now id us = update_rows (incremented now) id us

unfoldable pub lock_panel_user : ℕ → ℕ → ℕ → List PanelUser → List PanelUser
lock_panel_user now id until us = update_rows (locked now until) id us

unfoldable pub reset_failed_attempts : ℕ → ℕ → List PanelUser → List PanelUser
reset_failed_attempts now id us = update_rows (reset now) id us

unfoldable pub update_panel_user_last_login : ℕ → ℕ → List PanelUser → List PanelUser
update_panel_user_last_login now id us = update_rows (logged_in now) id us

unfoldable pub update_option : (PanelUser → PanelUser) → ℕ → Option PanelUser → Option PanelUser
update_option f id none = none
update_option f id (some u) = some (update_row f id u)

update_row-username :
    (f : PanelUser → PanelUser) (id : ℕ) (u : PanelUser)
    → (f u).username ≡ u.username
    → (update_row f id u).username ≡ u.username
unfolding update_row
update_row-username f id u h = ground arith

update_option_if :
    (f : PanelUser → PanelUser) (id : ℕ) (u : PanelUser) (b : Bool) (o : Option PanelUser)
    → (if b then some (update_row f id u) else update_option f id o)
      ≡ update_option f id (if b then some u else o)
unfolding update_option
update_option_if f id u true o = refl
update_option_if f id u false o = refl

-- A row is found after an update as it was found before it, updated.
pub get_panel_user-update :
    (f : PanelUser → PanelUser)
    → ((u : PanelUser) → (f u).username ≡ u.username)
    → (id : ℕ) (name : Text) (us : List PanelUser)
    → get_panel_user_by_username name (update_rows f id us)
      ≡ update_option f id (get_panel_user_by_username name us)
unfolding get_panel_user_by_username update_rows update_option
get_panel_user-update f keeps id name [] = refl
get_panel_user-update f keeps id name (u ∷ us) =
    simp (update_row-username f id u (keeps u), get_panel_user-update f keeps id name us)
      (update_option_if f id u (text_eq u.username name) (get_panel_user_by_username name us))
