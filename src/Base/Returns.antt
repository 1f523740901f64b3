-- ===== src/Base/Returns.antt =====
-- Code that never fails: a rule for each way of composing it, with what its answers satisfy.
use mathlib.Core.Path.{◌≡◌, refl}
use ngm.Base.Results.{Result, ok, err, M, bind_step, return, try, ◌>>=◌}

pub record Returns {ℓ κ μ} {S : Type ℓ} {A : Type κ} (P : A → Type μ) (m : M S A)
    : Type (ℓ ⊔ (κ ⊔ μ)) where
  pub returned : (s : S) → (a : A) × ((m s).0 ≡ ok a) × P a

module _ {S A : Type 0} {P : A → Type 0} where
  pub return-Returns : (a : A) → P a → Returns P (return {S = S} a)
  unfolding return
  return-Returns a h = record { returned = λ s. (a, refl, h) }

pub try-Returns : {S A : Type 0} (m : M S A) → Returns (λ a. Unit {0}) (try m)
unfolding try
try-Returns m = record { returned = λ s. ((m s).0, refl, tt) }

module _ {S A B : Type 0} {Q : A → Type 0} {P : B → Type 0} where
  step-Returns :
      (f : A → M S B) (x : Result A × S) (a : A)
      → x.0 ≡ ok a
      → Q a
      → ((a : A) → Q a → Returns P (f a))
      → (b : B) × ((bind_step x f).0 ≡ ok b) × P b
  step-Returns f (ok a', s) a e h k = let same : a' ≡ a = cc in rw same ((k a h).returned s)
  step-Returns f (err e', s) a e h k = cc

  pub >>=-Returns :
      {m : M S A} {f : A → M S B}
      → Returns Q m
      → ((a : A) → Q a → Returns P (f a))
      → Returns P (m >>= f)
  unfolding ◌>>=◌
  >>=-Returns {m} {f} h k = record {
    returned = λ s. let (a, e, q) = h.returned s in step-Returns f (m s) a e q k;
  }
