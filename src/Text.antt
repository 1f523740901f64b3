-- ===== src/Text.antt =====
-- Go strings as lists of bytes, with the functions of `strings` that the program calls.
pub mod Laws
pub mod Decimal
pub mod Order
pub mod Trim
pub mod Place
use Prim.Native.Char.{code}
use ngm.Base.{
  ℕ, ◌+◌, ◌-◌, ◌≡◌, Bool, true, false, not, ◌&&◌, ◌||◌, List, [], ◌∷◌, ◌++◌, map, Option, none,
  some, String, leb, ltb, ◌==◌, if◌then◌else◌,
}

abbrev pub Text : Type 0
Text = List ℕ

-- A literal.
unfoldable pub text : String → Text
text String.[] = []
text (String.◌∷◌ c s) = code c ∷ text s

unfoldable pub text_eq : Text → Text → Bool
text_eq [] [] = true
text_eq (x ∷ xs) (y ∷ ys) = (x == y) && text_eq xs ys
text_eq _ _ = false

unfoldable pub is_empty : Text → Bool
is_empty [] = true
is_empty (x ∷ xs) = false

-- '\t', '\n', '\v', '\f', '\r', ' '
unfoldable pub is_space : ℕ → Bool
is_space c = (leb 9 c && leb c 13) || (c == 32)

-- `strings.TrimLeft` and `strings.TrimRight` with the test of the cutset.
unfoldable pub trim_left : (ℕ → Bool) → Text → Text
trim_left cut [] = []
trim_left cut (c ∷ s) = let rest = trim_left cut s in if cut c then rest else c ∷ s

unfoldable pub trim_right : (ℕ → Bool) → Text → Text
trim_right cut [] = []
trim_right cut (c ∷ s) =
    let rest = trim_right cut s in if cut c && is_empty rest then [] else c ∷ rest

unfoldable pub trim_space : Text → Text
unfolding is_space trim_left trim_right is_empty
trim_space s = trim_right is_space (trim_left is_space s)

unfoldable pub lower : ℕ → ℕ
lower c = if leb b'A' c && leb c b'Z' then c + 32 else c

unfoldable pub to_lower : Text → Text
unfolding lower
to_lower s = map lower s

unfoldable pub upper : ℕ → ℕ
upper c = if leb b'a' c && leb c b'z' then c - 32 else c

-- `strings.ToUpper`
unfoldable pub to_upper : Text → Text
unfolding upper
to_upper s = map upper s

-- `strings.ReplaceAll(s, "\r\n", "\n")`, and then "\r" by "\n"; `after_cr` says that a "\r" came before.
unfoldable pub unix_lines_from : Bool → Text → Text
unix_lines_from after_cr [] = []
unix_lines_from after_cr (c ∷ s) =
    let rest = unix_lines_from (c == 13) s in
    if c == 13 then 10 ∷ rest else if after_cr && (c == 10) then rest else c ∷ rest

unfoldable pub unix_lines : Text → Text
unix_lines s = unix_lines_from false s

unfoldable pub has_prefix : Text → Text → Bool
has_prefix s [] = true
has_prefix [] (p ∷ ps) = false
has_prefix (c ∷ s) (p ∷ ps) = (c == p) && has_prefix s ps

unfoldable pub has_suffix : Text → Text → Bool
unfolding text_eq
has_suffix [] suffix = text_eq [] suffix
has_suffix (c ∷ s) suffix = text_eq (c ∷ s) suffix || has_suffix s suffix

unfoldable pub contains : Text → Text → Bool
unfolding has_prefix
contains [] sub = has_prefix [] sub
contains (c ∷ s) sub = has_prefix (c ∷ s) sub || contains s sub

-- `strings.TrimSuffix`
unfoldable pub trim_suffix : Text → Text → Text
unfolding text_eq
trim_suffix [] suffix = []
trim_suffix (c ∷ s) suffix =
    let rest = trim_suffix s suffix in if text_eq (c ∷ s) suffix then [] else c ∷ rest

unfoldable pub split_step : Bool → ℕ → List Text → List Text
split_step true c pieces = [] ∷ pieces
split_step false c [] = (c ∷ []) ∷ []
split_step false c (piece ∷ pieces) = (c ∷ piece) ∷ pieces

-- `strings.Split` at one byte.
unfoldable pub split : ℕ → Text → List Text
unfolding split_step
split sep [] = [] ∷ []
split sep (c ∷ s) = split_step (c == sep) c (split sep s)

-- Go compares strings byte by byte.
unfoldable pub less : Text → Text → Bool
less s [] = false
less [] (y ∷ t) = true
less (x ∷ s) (y ∷ t) = ltb x y || ((x == y) && less s t)

-- `strings.Fields`: a space ends the word in front of which it stands.
unfoldable pub add_word : Text → List Text → List Text
add_word [] words = words
add_word (c ∷ s) words = (c ∷ s) ∷ words

unfoldable pub word_step : Bool → ℕ → Text × List Text → Text × List Text
word_step true c (word, words) = ([], add_word word words)
word_step false c (word, words) = (c ∷ word, words)

-- The word at the front, and the words after it.
unfoldable pub words_from : Text → Text × List Text
words_from [] = ([], [])
words_from (c ∷ s) = word_step (is_space c) c (words_from s)

unfoldable pub fields : Text → List Text
fields s = add_word (words_from s).0 (words_from s).1
