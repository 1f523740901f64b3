-- ===== src/Web/Session.antt =====
-- internal/web/session.go (its field `data` is `entries`), with `currentSession`, `requireAuth` and `handleLogout` of
-- internal/web/server.go. A time is a number of seconds; the random bytes are an argument.
pub mod Laws
use ngm.Base.{
  ℕ, ◌+◌, ◌*◌, ◌/◌, ◌%◌, ◌≡◌, Bool, true, false, List, [], ◌∷◌, Option, none, some, ltb,
  if◌then◌else◌,
}
use ngm.Base.Dict.{lookup, delete, insert}
use ngm.Text.{Text, text, text_eq, is_empty, trim_space}

pub record Session : Type 0 where
  pub token : Text
  pub user_id : ℕ
  pub username : Text
  pub role : Text
  pub expires : ℕ

pub record SessionStore : Type 0 where
  pub entries : List (Text × Session)
  pub ttl : ℕ

unfoldable pub new_session_store : ℕ → SessionStore
new_session_store ttl = record { entries = []; ttl = ttl }

unfoldable pub hex_digit : ℕ → ℕ
hex_digit n = if ltb n 10 then b'0' + n else 87 + n

-- `hex.EncodeToString`
unfoldable pub encode_hex : List ℕ → Text
encode_hex [] = []
encode_hex (b ∷ bs) = hex_digit (b / 16) ∷ (hex_digit (b % 16) ∷ encode_hex bs)

unfoldable pub session_at : ℕ → List ℕ → ℕ → Text → Text → SessionStore → Session
session_at now bytes user_id username role s = record {
  token = encode_hex bytes;
  user_id = user_id;
  username = username;
  role = role;
  expires = now + s.ttl;
}

unfoldable pub put : Session → SessionStore → SessionStore
put sess s = record s { entries = insert text_eq sess.token sess s.entries }

-- `New`: `random` is what `rand.Read` put into the buffer, or none if it failed.
unfoldable pub create :
    ℕ → Option (List ℕ) → ℕ → Text → Text → SessionStore → Option Session × SessionStore
create now none user_id username role s = (none, s)
create now (some bytes) user_id username role s =
    let sess = session_at now bytes user_id username role s in (some sess, put sess s)

-- `Delete`
unfoldable pub remove : Text → SessionStore → SessionStore
remove token s = record s { entries = delete text_eq token s.entries }

unfoldable pub get_found : ℕ → Text → Option Session → SessionStore → Option Session × SessionStore
get_found now token none s = (none, s)
get_found now token (some sess) s =
    if ltb sess.expires now then (none, remove token s) else (some sess, s)

-- `Get`
unfoldable pub get : ℕ → Text → SessionStore → Option Session × SessionStore
get now token s = get_found now token (lookup text_eq token s.entries) s

-- `currentSession`, on the value of the cookie, if the request has it.
unfoldable pub current_session : ℕ → Option Text → SessionStore → Option Session × SessionStore
current_session now none s = (none, s)
current_session now (some v) s =
    if is_empty (trim_space v) then (none, s) else get now (trim_space v) s

-- `handleLogout`
unfoldable pub logout : Option Text → SessionStore → SessionStore
logout none s = s
logout (some v) s = remove v s
