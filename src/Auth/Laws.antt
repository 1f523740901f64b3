-- ===== src/Auth/Laws.antt =====
-- Which passwords internal/auth/shadow.go accepts.
use ngm.Base.{◌≡◌, refl, arith, Bool, true, false, List, [], ◌∷◌, ◌++◌, none, some, if◌then◌else◌}
use ngm.Text.{Text, text, trim_space, has_prefix, split}
use ngm.Auth.{
  ShadowHash, found, not_found, Hashes, is_locked, second_field, scan, read_shadow_hash,
  compare_hash, verify_found, verify_shadow_password,
}

-- An account with a password: the first line that begins with the name and a colon has the hash in
-- its second field, and it is not one that locks the account.
abbrev pub OpensLine : Text → List Text → Type 0
OpensLine hash parts = (second_field parts ≡ found hash) × (is_locked hash ≡ false)

unfoldable pub Opens : Text → Text → List Text → Type 0
Opens needle hash [] = ⊥
Opens needle hash (line ∷ lines) =
    if has_prefix line needle then OpensLine hash (split b':' line) else Opens needle hash lines

second_field-open :
    (parts : List Text) (hash : Text) → second_field parts ≡ found hash → is_locked hash ≡ false
unfolding second_field
second_field-open [] hash h = cc
second_field-open (name ∷ []) hash h = cc
second_field-open (name ∷ (x ∷ rest)) hash h = ground arith

scan-Opens :
    (needle hash : Text) (lines : List Text) (failed : Bool)
    → scan needle lines failed ≡ found hash
    → Opens needle hash lines
unfolding scan Opens
scan-Opens needle hash [] true h = cc
scan-Opens needle hash [] false h = cc
scan-Opens needle hash (line ∷ lines) failed h =
    opens (has_prefix line needle) (scan-Opens needle hash lines failed) h
  where
    opens :
        (b : Bool)
        → (scan needle lines failed ≡ found hash → Opens needle hash lines)
        → (if b then second_field (split b':' line) else scan needle lines failed) ≡ found hash
        → if b then OpensLine hash (split b':' line) else Opens needle hash lines
    opens true k h = (h, second_field-open (split b':' line) hash h)
    opens false k h = k h

module _ (hashes : Hashes) where
  verify_found-compare :
      (password : Text) (r : ShadowHash)
      → verify_found hashes password r ≡ none
      → (hash : Text) × ((r ≡ found hash) × (compare_hash hashes password hash ≡ none))
  unfolding verify_found
  verify_found-compare password (found hash) h = (hash, (refl, h))
  verify_found-compare password (not_found e) h = cc

  -- A password is accepted only if the file has a line for the account, whose hash is neither empty
  -- nor one that locks the account, and the function for that kind of hash accepts it.
  pub verify_shadow_password-Opens :
      (username password : Text) (lines : List Text) (failed : Bool)
      → verify_shadow_password hashes (some (lines, failed)) username password ≡ none
      → (hash : Text) × (Opens (trim_space username ++ text ":") hash lines
          × (compare_hash hashes password hash ≡ none))
  unfolding verify_shadow_password read_shadow_hash
  verify_shadow_password-Opens username password lines failed h =
      let needle : Text = trim_space username ++ text ":" in
      let (hash, (is_found, accepted)) =
        verify_found-compare password (scan needle lines failed) h in
      (hash, (scan-Opens needle hash lines failed is_found, accepted))
