-- ===== src/Ini/Laws.antt =====
-- What the settings that internal/app/template.go parses may hold: they go into the pool file of
-- PHP-FPM, one per line.
use ngm.Base.{
  ℕ, ◌≡◌, refl, ◌∙◌, Bool, true, false, not, ◌&&◌, ◌||◌, List, [], ◌∷◌, Option, none, some, ◌==◌,
  arith, if◌then◌else◌, Bool-cases, inl, inr,
}
use ngm.Base.Dict.{insert, delete}
use ngm.Text.{
  Text, text, text_eq, is_empty, is_space, trim_left, trim_right, trim_space, split, split_step,
  unix_lines, unix_lines_from, has_prefix,
}
use ngm.Ini.{
  Settings, Overrides, before, cut, is_ini_key, warn, warn_if_empty, put_setting, put_routed,
  with_equals, add_line, add_lines, parse_php_ini_overrides,
}

unfoldable pub lacks : ℕ → Text → Bool
lacks x [] = true
lacks x (c ∷ s) = not (c == x) && lacks x s

lacks-trim_left : (x : ℕ) (s : Text) → lacks x s ≡ true → lacks x (trim_left is_space s) ≡ true
unfolding lacks trim_left
lacks-trim_left x [] h = refl
lacks-trim_left x (c ∷ s) h = ground (arith, lacks-trim_left x s)

lacks-trim_right : (x : ℕ) (s : Text) → lacks x s ≡ true → lacks x (trim_right is_space s) ≡ true
unfolding lacks trim_right
lacks-trim_right x [] h = refl
lacks-trim_right x (c ∷ s) h = ground (arith, lacks-trim_right x s)

lacks-trim_space : (x : ℕ) (s : Text) → lacks x s ≡ true → lacks x (trim_space s) ≡ true
unfolding trim_space
lacks-trim_space x s h = lacks-trim_right x (trim_left is_space s) (lacks-trim_left x s h)

-- What follows the separator.
rest_lacks : ℕ → Option (Text × Text) → Bool
rest_lacks x none = true
rest_lacks x (some (a, b)) = lacks x b

lacks-before : (x c : ℕ) (r : Option (Text × Text)) → rest_lacks x (before c r) ≡ rest_lacks x r
unfolding rest_lacks before
lacks-before x c none = refl
lacks-before x c (some (a, b)) = refl

lacks-tail : (x c : ℕ) (s : Text) → lacks x (c ∷ s) ≡ true → lacks x s ≡ true
unfolding lacks
lacks-tail x c s h = ground arith

lacks-cut : (x sep : ℕ) (s : Text) → lacks x s ≡ true → rest_lacks x (cut sep s) ≡ true
unfolding lacks cut rest_lacks
lacks-cut x sep [] h = refl
lacks-cut x sep (c ∷ s) h = elim (Bool-cases (c == sep)) [
  | inl e ↦ rw e (lacks-tail x c s h)
  | inr e ↦ rw e (lacks-before x c (cut sep s) ∙ lacks-cut x sep s (lacks-tail x c s h))
]

lacks-unix_lines_from : (after : Bool) (s : Text) → lacks 13 (unix_lines_from after s) ≡ true
unfolding lacks unix_lines_from
lacks-unix_lines_from after [] = refl
lacks-unix_lines_from after (c ∷ s) = ground (arith, lacks-unix_lines_from (c == 13) s)

all_lack : ℕ → List Text → Bool
all_lack x [] = true
all_lack x (s ∷ ss) = lacks x s && all_lack x ss

split_step-lacks :
    (b : Bool) (x c : ℕ) (ss : List Text)
    → (if b then true else not (c == x)) ≡ true
    → all_lack x ss ≡ true
    → all_lack x (split_step b c ss) ≡ true
unfolding all_lack split_step lacks
split_step-lacks true x c ss h k = k
split_step-lacks false x c [] h k = ground arith
split_step-lacks false x c (s ∷ ss) h k = ground arith

split-lacks :
    (x sep : ℕ) (s : Text)
    → (if x == sep then true else lacks x s) ≡ true
    → all_lack x (split sep s) ≡ true
unfolding split all_lack lacks
split-lacks x sep [] h = refl
split-lacks x sep (c ∷ s) h =
    split_step-lacks (c == sep) x c (split sep s) (ground arith)
      (split-lacks x sep s (ground arith))

-- Each key is made of the bytes of a key, and no value has a line break.
unfoldable pub safe : Settings → Bool
safe [] = true
safe ((key, val) ∷ m) = (is_ini_key key && (lacks b'\n' val && lacks 13 val)) && safe m

unfoldable pub safe_overrides : Overrides → Bool
safe_overrides o = safe o.admin && safe o.normal

safe-delete : (key : Text) (m : Settings) → safe m ≡ true → safe (delete text_eq key m) ≡ true
unfolding safe delete
safe-delete key [] h = refl
safe-delete key ((k, v) ∷ m) h = ground (arith, safe-delete key m)

put_setting-safe :
    (b : Bool) (key val : Text) (o : Overrides)
    → is_ini_key key ≡ true
    → (lacks b'\n' val && lacks 13 val) ≡ true
    → safe_overrides o ≡ true
    → safe_overrides (put_setting b key val o) ≡ true
unfolding put_setting safe_overrides safe insert
put_setting-safe true key val o h k l = ground (arith, safe-delete key o.admin)
put_setting-safe false key val o h k l = ground (arith, safe-delete key o.normal)

put_routed-safe :
    (r : Bool × Text) (val : Text) (o : Overrides)
    → (lacks b'\n' val && lacks 13 val) ≡ true
    → safe_overrides o ≡ true
    → safe_overrides (put_routed r val o) ≡ true
unfolding put_routed warn safe_overrides
put_routed-safe (b, key) val o k l = elim (Bool-cases (is_ini_key (trim_space key))) [
  | inl e ↦ rw e (put_setting-safe b (trim_space key) val o e k l)
  | inr e ↦ rw e l
]

warn_if_empty-safe :
    (key val : Text) (o : Overrides) → safe_overrides (warn_if_empty key val o) ≡ safe_overrides o
unfolding warn_if_empty warn safe_overrides
warn_if_empty-safe key val o = elim (Bool-cases (is_empty val)) [
  | inl e ↦ rw e refl
  | inr e ↦ rw e refl
]

with_equals-safe :
    (l : Text) (r : Option (Text × Text)) (o : Overrides)
    → rest_lacks b'\n' r ≡ true
    → rest_lacks 13 r ≡ true
    → safe_overrides o ≡ true
    → safe_overrides (with_equals l r o) ≡ true
unfolding with_equals rest_lacks warn safe_overrides
with_equals-safe l none o h k safe_o = safe_o
with_equals-safe l (some (key, val)) o h k safe_o = elim (Bool-cases (is_empty (trim_space key))) [
  | inl e ↦ rw e safe_o
  | inr e ↦ rw e (
      put_routed-safe _ (trim_space val) (warn_if_empty (trim_space key) (trim_space val) o)
        (rw (lacks-trim_space b'\n' val h) (lacks-trim_space 13 val k))
        (warn_if_empty-safe (trim_space key) (trim_space val) o ∙ safe_o))
]

add_line-safe :
    (l : Text) (o : Overrides)
    → lacks b'\n' l ≡ true
    → lacks 13 l ≡ true
    → safe_overrides o ≡ true
    → safe_overrides (add_line l o) ≡ true
unfolding add_line
add_line-safe l o h k safe_o =
    elim (Bool-cases (is_empty l || (has_prefix l (text "#") || has_prefix l (text ";")))) [
      | inl e ↦ rw e safe_o
      | inr e ↦ rw e (
          with_equals-safe l (cut b'=' l) o (lacks-cut b'\n' b'=' l h) (lacks-cut 13 b'=' l k)
            safe_o)
    ]

add_lines-safe :
    (ls : List Text) (o : Overrides)
    → all_lack b'\n' ls ≡ true
    → all_lack 13 ls ≡ true
    → safe_overrides o ≡ true
    → safe_overrides (add_lines ls o) ≡ true
unfolding add_lines all_lack
add_lines-safe [] o h k safe_o = safe_o
add_lines-safe (l ∷ ls) o h k safe_o = ground (
  arith,
  add_lines-safe ls (add_line (trim_space l) o),
  add_line-safe (trim_space l) o,
  lacks-trim_space b'\n' l,
  lacks-trim_space 13 l,
)

-- Whatever is typed, every key that parsePHPIniOverrides returns is made of letters, digits, dots,
-- dashes and underscores and is not empty, and no value has a line break: no setting is more than
-- one line of the pool file.
pub parse_php_ini_overrides-safe :
    (raw : Text) → safe_overrides (parse_php_ini_overrides raw) ≡ true
unfolding parse_php_ini_overrides unix_lines safe_overrides safe
parse_php_ini_overrides-safe raw =
    add_lines-safe (split b'\n' (unix_lines_from false raw))
      (record { admin = []; normal = []; warnings = [] })
      (split-lacks b'\n' b'\n' (unix_lines_from false raw) refl)
      (split-lacks 13 b'\n' (unix_lines_from false raw) (lacks-unix_lines_from false raw)) refl
