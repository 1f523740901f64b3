-- ===== src/Text/Place.antt =====
-- The functions of Go's `path/filepath` that the program calls, for slash-separated paths.
use ngm.Base.{
  ◌≡◌, refl, Bool, true, false, not, ◌&&◌, ◌||◌, List, [], ◌∷◌, ◌++◌, ◌==◌, if◌then◌else◌,
}
use ngm.Text.{Text, text, text_eq, is_empty, split}

unfoldable pub is_abs : Text → Bool
is_abs [] = false
is_abs (c ∷ p) = c == b'/'

-- One ".." takes the last part away; above the root there is only the root.
unfoldable pub pop : Bool → List Text → List Text
unfolding text_eq text
pop rooted [] = if rooted then [] else text ".." ∷ []
pop rooted (part ∷ parts) = if text_eq part (text "..") then text ".." ∷ (part ∷ parts) else parts

-- The parts read so far, the last one first.
unfoldable pub push : Bool → Text → List Text → List Text
unfolding is_empty text_eq text pop
push rooted part parts =
    if is_empty part || text_eq part (text ".")
    then parts
    else if text_eq part (text "..")
    then pop rooted parts
    else part ∷ parts

unfoldable pub push_all : Bool → List Text → List Text → List Text
unfolding push
push_all rooted [] parts = parts
push_all rooted (part ∷ rest) parts = push_all rooted rest (push rooted part parts)

-- Parts in reverse, with slashes between them and `tail` behind.
unfoldable pub join_parts : List Text → Text → Text
join_parts [] tail = tail
join_parts (part ∷ []) tail = part ++ tail
join_parts (part ∷ (next ∷ parts)) tail = join_parts (next ∷ parts) (b'/' ∷ (part ++ tail))

unfoldable pub or_dot : Text → Text
or_dot [] = b'.' ∷ []
or_dot (c ∷ s) = c ∷ s

-- `filepath.Clean`
unfoldable pub clean : Text → Text
unfolding is_abs join_parts push_all or_dot split
clean p =
    if is_abs p
    then b'/' ∷ join_parts (push_all true (split b'/' p) []) []
    else or_dot (join_parts (push_all false (split b'/' p) []) [])

-- `filepath.Join` of two elements: empty ones are left out.
unfoldable pub join : Text → Text → Text
unfolding clean
join [] [] = []
join [] (c ∷ name) = clean (c ∷ name)
join (c ∷ dir) [] = clean (c ∷ dir)
join (c ∷ dir) (x ∷ name) = clean (c ∷ (dir ++ (b'/' ∷ (x ∷ name))))

-- The path up to its last slash.
unfoldable pub up_to_slash : Text → Text
up_to_slash [] = []
up_to_slash (c ∷ p) =
    let rest = up_to_slash p in if is_empty rest && not (c == b'/') then [] else c ∷ rest

-- `filepath.Dir`
unfoldable pub dir : Text → Text
dir p = clean (up_to_slash p)

is_abs_slash : (s : Text) → is_abs (b'/' ∷ s) ≡ true
unfolding is_abs
is_abs_slash s = refl

clean-abs : (p : Text) → is_abs p ≡ true → is_abs (clean p) ≡ true
unfolding clean
clean-abs p h = rw h (is_abs_slash (join_parts (push_all true (split b'/' p) []) []))

-- What is joined to an absolute directory is absolute.
pub join-abs : (dir name : Text) → is_abs dir ≡ true → is_abs (join dir name) ≡ true
unfolding join is_abs
join-abs [] name h = cc
join-abs (c ∷ dir) [] h = clean-abs (c ∷ dir) h
join-abs (c ∷ dir) (x ∷ name) h = clean-abs (c ∷ (dir ++ (b'/' ∷ (x ∷ name)))) h
