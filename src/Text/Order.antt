-- ===== src/Text/Order.antt =====
-- The order of Go strings is a strict order of all strings.
use ngm.Base.{◌≡◌, true, false, [], ◌∷◌, arith}
use ngm.Base.Sort.{IsStrictOrder}
use ngm.Text.{Text, less}

less_asym : (s t : Text) → less s t ≡ true → less t s ≡ false
unfolding less
less_asym [] [] h = cc
less_asym [] (y ∷ t) h = ground arith
less_asym (x ∷ s) [] h = cc
less_asym (x ∷ s) (y ∷ t) h = ground (arith, less_asym s t)

less_trans : (s t u : Text) → less s t ≡ true → less t u ≡ true → less s u ≡ true
unfolding less
less_trans s t [] h k = ground arith
less_trans [] t (z ∷ u) h k = ground arith
less_trans (x ∷ s) [] (z ∷ u) h k = cc
less_trans (x ∷ s) (y ∷ t) (z ∷ u) h k = ground (arith, less_trans s t u)

less_tri : (s t : Text) → less s t ≡ false → less t s ≡ false → s ≡ t
unfolding less
less_tri [] [] h k = cc
less_tri [] (y ∷ t) h k = cc
less_tri (x ∷ s) [] h k = cc
less_tri (x ∷ s) (y ∷ t) h k = ground (arith, less_tri s t)

pub less-IsStrictOrder : IsStrictOrder less
less-IsStrictOrder = record { asym = less_asym; trans = less_trans; tri = less_tri }
