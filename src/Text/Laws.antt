-- ===== src/Text/Laws.antt =====
-- Laws of the functions on Go strings.
use ngm.Base.{ℕ, ◌≡◌, refl, ◌↔◌, true, [], ◌∷◌, arith}
use ngm.Text.{Text, text_eq, lower, to_lower}

pub text_eq_iff : (s t : Text) → (text_eq s t ≡ true) ↔ (s ≡ t)
unfolding text_eq
text_eq_iff [] [] = (λ _. refl, λ _. refl)
text_eq_iff [] (y ∷ t) = (λ h. cc, λ h. cc)
text_eq_iff (x ∷ s) [] = (λ h. cc, λ h. cc)
text_eq_iff (x ∷ s) (y ∷ t) = ground (arith, text_eq_iff s t)

pub text_eq_refl : (s : Text) → text_eq s s ≡ true
text_eq_refl s = (text_eq_iff s s).1 refl

pub lower_idem : (c : ℕ) → lower (lower c) ≡ lower c
unfolding lower
lower_idem c = ground arith

pub to_lower_idem : (s : Text) → to_lower (to_lower s) ≡ to_lower s
unfolding to_lower
to_lower_idem [] = refl
to_lower_idem (c ∷ s) = cc (lower_idem c, to_lower_idem s)
