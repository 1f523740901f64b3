-- ===== src/Base/Yields.antt =====
-- What every answer of code that may fail satisfies: a rule for each way of composing it.
use mathlib.Core.Path.{◌≡◌, refl, subst}
use mathlib.Core.Bool.{Bool, true, false}
use ngm.Base.Tests.{if◌then◌else◌}
use ngm.Base.Results.{Error, Result, ok, err, M, bind_step, return, fail, ◌>>=◌}

pub record Yields {ℓ κ μ} {S : Type ℓ} {A : Type κ} (P : A → Type μ) (m : M S A)
    : Type (ℓ ⊔ (κ ⊔ μ)) where
  pub yielded : (s : S) (a : A) → (m s).0 ≡ ok a → P a

module _ {S A : Type 0} {P : A → Type 0} where
  pub return-Yields : (a : A) → P a → Yields P (return {S = S} a)
  unfolding return
  return-Yields a h = record { yielded = λ s b e. let same : a ≡ b = cc in subst P same h }

  pub fail-Yields : (e : Error) → Yields P (fail {S = S} e)
  unfolding fail
  fail-Yields e = record { yielded = λ s b no. cc }

  pub if-Yields : (b : Bool) {m n : M S A} → Yields P m → Yields P n → Yields P (if b then m else n)
  if-Yields true h k = h
  if-Yields false h k = k

pub any-Yields : {S A : Type 0} (m : M S A) → Yields (λ a. Unit {0}) m
any-Yields m = record { yielded = λ s a e. tt }

module _ {S A B : Type 0} {Q : A → Type 0} {P : B → Type 0} where
  step-Yields :
      (f : A → M S B) (x : Result A × S)
      → ((a : A) → x.0 ≡ ok a → Q a)
      → ((a : A) → Q a → Yields P (f a))
      → (b : B) → (bind_step x f).0 ≡ ok b
      → P b
  step-Yields f (ok a, s) h k b e = (k a (h a refl)).yielded s b e
  step-Yields f (err e', s) h k b e = cc

  pub >>=-Yields :
      {m : M S A} {f : A → M S B}
      → Yields Q m
      → ((a : A) → Q a → Yields P (f a))
      → Yields P (m >>= f)
  unfolding ◌>>=◌
  >>=-Yields {m} {f} h k = record { yielded = λ s. step-Yields f (m s) (h.yielded s) k }
