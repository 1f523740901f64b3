-- ===== src/Ini.antt =====
-- The php.ini overrides of internal/app/template.go: the lines that a user may type for a site. A map
-- is an association list.
pub mod Laws
pub mod Owner
use ngm.Base.{
  ℕ, Bool, true, false, not, ◌&&◌, ◌||◌, List, [], ◌∷◌, ◌++◌, Option, none, some, leb, ◌==◌,
  if◌then◌else◌,
}
use ngm.Base.Dict.{insert}
use ngm.Text.{
  Text, text, text_eq, is_empty, trim_space, to_lower, has_prefix, has_suffix, trim_suffix, split,
  unix_lines, trim_right,
}
use ngm.Text.Decimal.{atoi, read_number}

abbrev pub Settings : Type 0
Settings = List (Text × Text)

pub record Overrides : Type 0 where
  pub admin : Settings
  pub normal : Settings
  pub warnings : List Text

unfoldable pub before : ℕ → Option (Text × Text) → Option (Text × Text)
before c none = none
before c (some (a, b)) = some (c ∷ a, b)

-- What stands before the first such byte, and what follows it.
unfoldable pub cut : ℕ → Text → Option (Text × Text)
cut sep [] = none
cut sep (c ∷ s) = let rest = cut sep s in if c == sep then some ([], s) else before c rest

-- `[A-Za-z0-9_.-]`
unfoldable pub is_key_byte : ℕ → Bool
is_key_byte c =
    (leb b'A' c && leb c b'Z')
    || ((leb b'a' c && leb c b'z')
        || ((leb b'0' c && leb c b'9') || ((c == b'_') || ((c == b'.') || (c == b'-')))))

unfoldable pub key_bytes : Text → Bool
key_bytes [] = true
key_bytes (c ∷ s) = is_key_byte c && key_bytes s

-- `reIniKey`
unfoldable pub is_ini_key : Text → Bool
is_ini_key s = not (is_empty s) && key_bytes s

unfoldable pub warn : Text → Overrides → Overrides
warn message o = record o { warnings = o.warnings ++ (message ∷ []) }

-- Whether the key is an admin value, and the key without the prefix that says so.
unfoldable pub routed : Text → Option (Text × Text) → Bool × Text
routed key none = (true, key)
routed key (some ([], rest)) = (true, key)
routed key (some (c ∷ p, rest)) =
    let pref = to_lower (trim_space (c ∷ p)) in
    if text_eq pref (text "admin") || text_eq pref (text "php_admin_value")
    then (true, trim_space rest)
    else if text_eq pref (text "value") || text_eq pref (text "php_value")
    then (false, trim_space rest)
    else (true, key)

unfoldable pub put_setting : Bool → Text → Text → Overrides → Overrides
put_setting true key val o = record o { admin = insert text_eq key val o.admin }
put_setting false key val o = record o { normal = insert text_eq key val o.normal }

unfoldable pub put_routed : Bool × Text → Text → Overrides → Overrides
put_routed (is_admin, key) val o =
    if not (is_ini_key (trim_space key))
    then warn (text "ignored (bad key): " ++ trim_space key) o
    else put_setting is_admin (trim_space key) val o

unfoldable pub warn_if_empty : Text → Text → Overrides → Overrides
warn_if_empty key val o = if is_empty val then warn (text "warning (empty value): " ++ key) o else o

unfoldable pub with_equals : Text → Option (Text × Text) → Overrides → Overrides
with_equals l none o = warn (text "ignored (no '='): " ++ l) o
with_equals l (some (k, v)) o =
    if is_empty (trim_space k)
    then warn (text "ignored (empty key): " ++ l) o
    else put_routed (routed (trim_space k) (cut b':' (trim_space k))) (trim_space v)
        (warn_if_empty (trim_space k) (trim_space v) o)

unfoldable pub add_line : Text → Overrides → Overrides
add_line l o =
    if is_empty l || (has_prefix l (text "#") || has_prefix l (text ";"))
    then o
    else with_equals l (cut b'=' l) o

unfoldable pub add_lines : List Text → Overrides → Overrides
add_lines [] o = o
add_lines (line ∷ lines) o = add_lines lines (add_line (trim_space line) o)

unfoldable pub parse_php_ini_overrides : Text → Overrides
parse_php_ini_overrides raw =
    add_lines (split b'\n' (unix_lines raw)) (record { admin = []; normal = []; warnings = [] })

unfoldable pub only_zero : Option ℕ → Option ℕ
only_zero none = none
only_zero (some n) = if n == 0 then some 0 else none

-- `strconv.Atoi` where a negative number is refused: minus zero is zero.
unfoldable pub not_negative : Text → Option ℕ
not_negative [] = none
not_negative (c ∷ s) = if c == b'-' then only_zero (read_number s) else atoi (c ∷ s)

-- The digits of a time, with or without an s behind them.
unfoldable pub parse_php_seconds : Text → Option ℕ
parse_php_seconds v =
    let s = trim_space (to_lower v) in
    if is_empty s then none else not_negative (trim_space (trim_suffix s (text "s")))

unfoldable pub first_part : List Text → Option Text
first_part [] = none
first_part ([] ∷ parts) = none
first_part ((c ∷ part) ∷ parts) = some (c ∷ part)

-- The text behind the prefix, if it has it.
unfoldable pub behind : Text → Text → Option Text
behind s [] = some s
behind [] (p ∷ prefix) = none
behind (c ∷ s) (p ∷ prefix) = let rest = behind s prefix in if c == p then rest else none

unfoldable pub first_part_behind : Option Text → Option Text
first_part_behind none = none
first_part_behind (some rest) = first_part (split b'/' rest)

unfoldable pub infer_user_from_webroot : Text → Text → Option Text
infer_user_from_webroot home_root webroot =
    let home = trim_right (λ c. c == b'/') home_root in
    if is_empty home then none else first_part_behind (behind webroot (home ++ (b'/' ∷ [])))
