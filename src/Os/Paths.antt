-- ===== src/Os/Paths.antt =====
-- The files that the program names, by role.
use ngm.Base.{ℕ, ◌≡◌, refl, ◌↔◌, Bool, true, false, arith, ◌==◌, ==_iff}
use ngm.Text.{Text, text_eq}
use ngm.Text.Laws.{text_eq_iff}

pub data FilePath : Type 0 where
  live : Text → FilePath
  staged : Text → FilePath
  backup : Text → FilePath
  temp : ℕ → FilePath
  other : Text → FilePath

abbrev pub path_eq : FilePath → FilePath → Bool
path_eq (live a) (live b) = text_eq a b
path_eq (staged a) (staged b) = text_eq a b
path_eq (backup a) (backup b) = text_eq a b
path_eq (temp a) (temp b) = a == b
path_eq (other a) (other b) = text_eq a b
path_eq _ _ = false

abbrev pub is_temp : FilePath → Bool
is_temp (temp n) = true
is_temp _ = false

pub path_eq_iff : (p q : FilePath) → (path_eq p q ≡ true) ↔ (p ≡ q)
path_eq_iff (live a) (live b) = ground (arith, text_eq_iff a b)
path_eq_iff (staged a) (staged b) = ground (arith, text_eq_iff a b)
path_eq_iff (backup a) (backup b) = ground (arith, text_eq_iff a b)
path_eq_iff (temp a) (temp b) = ground (arith, ==_iff a b)
path_eq_iff (other a) (other b) = ground (arith, text_eq_iff a b)
path_eq_iff _ _ = ground arith

pub path_eq_refl : (p : FilePath) → path_eq p p ≡ true
path_eq_refl p = (path_eq_iff p p).1 refl

-- A path that is not temporary is not the path of a temporary file.
pub path_eq-temp : (n : ℕ) (q : FilePath) → is_temp q ≡ false → path_eq (temp n) q ≡ false
path_eq-temp n (temp m) h = cc
path_eq-temp n (live d) h = refl
path_eq-temp n _ h = refl

pub path_eq_temp : (n : ℕ) (q : FilePath) → is_temp q ≡ false → path_eq q (temp n) ≡ false
path_eq_temp n (temp m) h = cc
path_eq_temp n (live d) h = refl
path_eq_temp n _ h = refl
