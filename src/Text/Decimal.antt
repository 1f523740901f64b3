-- ===== src/Text/Decimal.antt =====
-- `%d` of a number that is not negative.
use ngm.Base.{
  ℕ, zero, suc, ◌+◌, ◌-◌, ◌*◌, ◌/◌, ◌%◌, ◌^◌, Bool, ◌&&◌, [], ◌∷◌, Option, none, some, ltb, leb,
  ◌==◌, if◌then◌else◌,
}
use ngm.Text.{Text}

-- The digits in front of `tail`, with fuel that the number itself is enough of.
unfoldable pub digits : ℕ → ℕ → Text → Text
digits zero n tail = tail
digits (suc fuel) n tail =
    let here = (b'0' + n % 10) ∷ tail in
    let more = digits fuel (n / 10) here in if ltb n 10 then here else more

unfoldable pub decimal : ℕ → Text
unfolding digits
decimal n = digits (suc n) n []

unfoldable pub is_digit : ℕ → Bool
is_digit c = leb b'0' c && leb c b'9'

-- The number that the digits continue, if they are digits.
unfoldable pub read_digits : ℕ → Text → Option ℕ
read_digits n [] = some n
read_digits n (c ∷ s) =
    let rest = read_digits (n * 10 + (c - 48)) s in if is_digit c then rest else none

unfoldable pub below : ℕ → Option ℕ → Option ℕ
below bound none = none
below bound (some n) = if ltb n bound then some n else none

unfoldable pub read_number : Text → Option ℕ
read_number [] = none
read_number (c ∷ s) = below (2 ^ 63) (read_digits 0 (c ∷ s))

-- `strconv.Atoi` where the number is not negative: a sign may stand in front.
unfoldable pub atoi : Text → Option ℕ
atoi [] = none
atoi (c ∷ s) = if c == b'+' then read_number s else read_number (c ∷ s)
