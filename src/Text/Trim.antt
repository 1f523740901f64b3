-- ===== src/Text/Trim.antt =====
-- `strings.TrimSpace` twice is once, also with `strings.ToLower` between.
use ngm.Base.{ℕ, ◌≡◌, refl, ap, sym, ◌∙◌, Bool, true, not, [], ◌∷◌, arith}
use ngm.Text.{Text, is_space, is_empty, trim_left, trim_right, trim_space, lower, to_lower}

starts_filled : Text → Bool
starts_filled [] = true
starts_filled (c ∷ s) = not (is_space c)

starts_filled-trim_left : (s : Text) → starts_filled (trim_left is_space s) ≡ true
unfolding starts_filled trim_left
starts_filled-trim_left [] = refl
starts_filled-trim_left (c ∷ s) = ground (arith, starts_filled-trim_left s)

starts_filled-trim_right :
    (s : Text) → starts_filled s ≡ true → starts_filled (trim_right is_space s) ≡ true
unfolding starts_filled trim_right
starts_filled-trim_right [] h = refl
starts_filled-trim_right (c ∷ s) h = ground arith

trim_left_filled : (s : Text) → starts_filled s ≡ true → trim_left is_space s ≡ s
unfolding starts_filled trim_left
trim_left_filled [] h = refl
trim_left_filled (c ∷ s) h = ground arith

trim_right_idem : (s : Text) → trim_right is_space (trim_right is_space s) ≡ trim_right is_space s
unfolding trim_right is_empty
trim_right_idem [] = refl
trim_right_idem (c ∷ s) = ground (arith, trim_right_idem s)

pub trim_space_idem : (s : Text) → trim_space (trim_space s) ≡ trim_space s
unfolding trim_space
trim_space_idem s =
    ap (trim_right is_space) (
      trim_left_filled (trim_right is_space (trim_left is_space s))
        (starts_filled-trim_right (trim_left is_space s) (starts_filled-trim_left s)))
    ∙ trim_right_idem (trim_left is_space s)

is_space-lower : (c : ℕ) → is_space (lower c) ≡ is_space c
unfolding is_space lower
is_space-lower c = ground arith

is_empty-to_lower : (s : Text) → is_empty (to_lower s) ≡ is_empty s
unfolding is_empty to_lower
is_empty-to_lower [] = refl
is_empty-to_lower (c ∷ s) = refl

to_lower-trim_left : (s : Text) → to_lower (trim_left is_space s) ≡ trim_left is_space (to_lower s)
unfolding to_lower trim_left
to_lower-trim_left [] = refl
to_lower-trim_left (c ∷ s) = ground (arith, to_lower-trim_left s, is_space-lower c)

to_lower-trim_right :
    (s : Text) → to_lower (trim_right is_space s) ≡ trim_right is_space (to_lower s)
unfolding to_lower trim_right is_empty
to_lower-trim_right [] = refl
to_lower-trim_right (c ∷ s) =
    ground
      (arith, to_lower-trim_right s, is_space-lower c, is_empty-to_lower (trim_right is_space s))

to_lower-trim_space : (s : Text) → to_lower (trim_space s) ≡ trim_space (to_lower s)
unfolding trim_space
to_lower-trim_space s =
    to_lower-trim_right (trim_left is_space s) ∙ ap (trim_right is_space) (to_lower-trim_left s)

-- A normalised domain has no space at its ends.
pub trim_space-to_lower-trim_space :
    (s : Text) → trim_space (to_lower (trim_space s)) ≡ to_lower (trim_space s)
trim_space-to_lower-trim_space s =
    sym (to_lower-trim_space (trim_space s)) ∙ ap to_lower (trim_space_idem s)
