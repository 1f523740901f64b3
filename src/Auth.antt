-- ===== src/Auth.antt =====
-- internal/auth/shadow.go: the entry of /etc/shadow, as lines, and the password against its hash.
-- The functions of the yescrypt, bcrypt and crypt packages are an argument.
pub mod Laws
use ngm.Base.{Bool, true, false, ◌||◌, List, [], ◌∷◌, ◌++◌, Option, none, some, if◌then◌else◌}
use ngm.Text.{Text, text, text_eq, is_empty, trim_space, has_prefix, split}

-- The errors: of `os.Open` or the scanner, `os.ErrNotExist`, `errInvalidShadow`, "invalid
-- credentials", "unsupported hash", and those of a hash function.
pub data AuthError : Type 0 where
  unreadable : AuthError
  no_entry : AuthError
  invalid_shadow : AuthError
  invalid_credentials : AuthError
  unsupported_hash : AuthError
  hash_failed : AuthError

pub data ShadowHash : Type 0 where
  found : Text → ShadowHash
  not_found : AuthError → ShadowHash

-- The lines of the file, and whether the scanner ends with an error. `none`: it cannot be opened.
abbrev pub Shadow : Type 0
Shadow = Option (List Text × Bool)

unfoldable pub is_locked : Text → Bool
is_locked h =
    is_empty h || (text_eq h (text "!") || (text_eq h (text "!!") || text_eq h (text "*")))

unfoldable pub second_field : List Text → ShadowHash
second_field [] = not_found invalid_shadow
second_field (name ∷ []) = not_found invalid_shadow
second_field (name ∷ (h ∷ rest)) =
    if is_locked (trim_space h) then not_found invalid_shadow else found (trim_space h)

unfoldable pub scan : Text → List Text → Bool → ShadowHash
scan needle [] failed = if failed then not_found unreadable else not_found no_entry
scan needle (line ∷ lines) failed =
    let rest = scan needle lines failed in
    if has_prefix line needle then second_field (split b':' line) else rest

unfoldable pub read_shadow_hash : Shadow → Text → ShadowHash
read_shadow_hash none username = not_found unreadable
read_shadow_hash (some (lines, failed)) username =
    scan (trim_space username ++ text ":") lines failed

-- `yescrypt.Hash`, `bcrypt.CompareHashAndPassword`, and `crypt.NewFromHash` with `Generate`: the
-- first option is the crypter that it finds.
pub record Hashes : Type 0 where
  pub yescrypt_hash : Text → Text → Option Text
  pub bcrypt_compare : Text → Text → Bool
  pub crypt_generate : Text → Option (Text → Option Text)

unfoldable pub same_hash : Text → Option Text → Option AuthError
same_hash hash none = some hash_failed
same_hash hash (some computed) = if text_eq computed hash then none else some invalid_credentials

unfoldable pub run_crypter : Text → Text → Option (Text → Option Text) → Option AuthError
run_crypter password hash none = some unsupported_hash
run_crypter password hash (some generate) = same_hash hash (generate password)

module _ (hashes : Hashes) where
  unfoldable pub compare_hash : Text → Text → Option AuthError
  compare_hash password hash =
      if has_prefix hash (text "$y$")
      then same_hash hash (hashes.yescrypt_hash password hash)
      else if has_prefix hash (text "$2a$") || has_prefix hash (text "$2b$")
      then (if hashes.bcrypt_compare hash password then none else some invalid_credentials)
      else if has_prefix hash (text "$1$")
          || (has_prefix hash (text "$5$") || has_prefix hash (text "$6$"))
      then run_crypter password hash (hashes.crypt_generate hash)
      else some unsupported_hash

  unfoldable pub verify_found : Text → ShadowHash → Option AuthError
  verify_found password (found hash) = compare_hash password hash
  verify_found password (not_found e) = some e

  -- `VerifyShadowPassword`: none is success.
  unfoldable pub verify_shadow_password : Shadow → Text → Text → Option AuthError
  verify_shadow_password shadow username password =
      verify_found password (read_shadow_hash shadow username)
