-- ===== src/Scenario/Panel.antt =====
-- A panel with an administrator, a reseller and a user of the reseller, and requests to it.
use ngm.Base.{ℕ, true, false, [], ◌∷◌, none, some}
use ngm.Text.{Text, text, text_eq}
use ngm.Auth.{Hashes}
use ngm.Store.{PanelUser}
use ngm.Web.Session.{Session, SessionStore}
use ngm.Web.Login.{Faults, Server, Request, method_post}
use ngm.Web.Access.{Directory}
use ngm.Scenario.{site_row}

abbrev pub eve : Text
eve = b'e' ∷ b'v' ∷ b'e' ∷ []

abbrev pub reseller_role : Text
unfolding text
reseller_role = text "reseller"

abbrev pub user_role : Text
unfolding text
user_role = text "user"

abbrev pub panel_user : ℕ → Text → ℕ → PanelUser
panel_user id role failed = record {
  id = id;
  username = eve;
  password_hash = b'h' ∷ [];
  role = role;
  enabled = true;
  reseller_id = some 7;
  system_user = [];
  failed_attempts = failed;
  locked_until = none;
  created_by = none;
  owner_id = none;
  last_login_at = none;
  created_at = 0;
  updated_at = 0;
}

-- bcrypt accepts the password that is the hash itself.
abbrev pub hashes : Hashes
unfolding text_eq
hashes = record {
  yescrypt_hash = λ password hash. none;
  bcrypt_compare = λ hash password. text_eq hash password;
  crypt_generate = λ hash. some (λ password. some hash);
}

abbrev pub sessions : SessionStore
sessions = record { entries = []; ttl = 3600 }

abbrev pub server : ℕ → Server
server failed = record { users = panel_user 3 reseller_role failed ∷ []; sessions = sessions }

-- No call of the database fails.
abbrev pub no_faults : Faults
no_faults = record {
  read_fails = false;
  count_fails = false;
  lock_fails = false;
  reset_fails = false;
  stamp_fails = false;
}

abbrev pub login : Text → ℕ → Request
login password now = record {
  method = method_post;
  username = eve;
  password = password;
  now = now;
  later = now;
  random = some (171 ∷ []);
  shadow = none;
  faults = no_faults;
}

abbrev pub reseller : Session
reseller = record { token = []; user_id = 7; username = []; role = reseller_role; expires = 100 }

abbrev pub directory : Directory
directory = record {
  site_get = λ d. some (site_row d true);
  get_user_by_id = λ id. some (record { id = id; username = eve; home_dir = []; created_at = 0 });
  users = panel_user 3 user_role 0 ∷ [];
}
