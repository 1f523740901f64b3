-- ===== src/Base/Results.antt =====
-- Results with a Go error, and the monad of code that passes a state along and may fail.
use mathlib.Core.Path.{◌≡◌, refl}
use mathlib.Core.Logic.{◌⊎◌, inl, inr}
use mathlib.Core.Bool.{Bool, true, false}
use mathlib.Core.List.{List, ◌++◌}
use Prim.Native.Nat.{ℕ}

-- An `error` value: its text, and whether `os.IsNotExist` recognises it.
pub record Error : Type 0 where
  pub not_exist : Bool
  pub message : List ℕ

pub data Result {ℓ} (A : Type ℓ) : Type ℓ where
  ok : A → Result A
  err : Error → Result A

abbrev pub is_ok {ℓ} : {A : Type ℓ} → Result A → Bool
is_ok (ok a) = true
is_ok (err e) = false

-- `fmt.Errorf`: the new error has a text of its own, and `os.IsNotExist` looks into no wrapping.
abbrev pub errorf : List ℕ → Error
errorf text = record { not_exist = false; message = text }

-- `fmt.Errorf("prefix: %w", err)`
abbrev pub wrap : List ℕ → Error → Error
wrap prefix e = errorf (prefix ++ e.message)

pub Result-cases {ℓ} :
    {A : Type ℓ} (r : Result A) → ((a : A) × (r ≡ ok a)) ⊎ ((e : Error) × (r ≡ err e))
Result-cases (ok a) = inl (a, refl)
Result-cases (err e) = inr (e, refl)

abbrev pub M {ℓ κ} : Type ℓ → Type κ → Type (ℓ ⊔ κ)
M S A = S → Result A × S

abbrev pub bind_step {ℓ κ μ} :
    {S : Type ℓ} {A : Type κ} {B : Type μ} → Result A × S → (A → M S B) → Result B × S
bind_step (ok a, s) f = f a s
bind_step (err e, s) f = (err e, s)

infixl 5 ◌>>=◌ ◌>>◌
unfoldable pub ◌>>=◌ {ℓ κ μ} : {S : Type ℓ} {A : Type κ} {B : Type μ} → M S A → (A → M S B) → M S B
◌>>=◌ m f s = bind_step (m s) f

unfoldable pub ◌>>◌ {ℓ κ μ} : {S : Type ℓ} {A : Type κ} {B : Type μ} → M S A → M S B → M S B
◌>>◌ m k s = bind_step (m s) (λ _. k)

unfoldable pub return {ℓ κ} : {S : Type ℓ} {A : Type κ} → A → M S A
return a s = (ok a, s)

unfoldable pub fail {ℓ κ} : {S : Type ℓ} {A : Type κ} → Error → M S A
fail e s = (err e, s)

-- The error is a value: the caller looks at it, or drops it.
unfoldable pub try {ℓ κ} : {S : Type ℓ} {A : Type κ} → M S A → M S (Result A)
try m s = let (r, s') = m s in (ok r, s')

abbrev pub wrap_step {ℓ κ} : {S : Type ℓ} {A : Type κ} → List ℕ → Result A × S → Result A × S
wrap_step text (ok a, s) = (ok a, s)
wrap_step text (err e, s) = (err (wrap text e), s)

-- `if err != nil { return fmt.Errorf(text, err) }`
unfoldable pub wrapping {ℓ κ} : {S : Type ℓ} {A : Type κ} → List ℕ → M S A → M S A
wrapping text m s = wrap_step text (m s)

module _ {ℓ κ μ} {S : Type ℓ} {A : Type κ} {B : Type μ} where
  step_ok :
      (x : Result A × S) (f : A → M S B) (b : B)
      → (bind_step x f).0 ≡ ok b
      → (a : A) × (x ≡ (ok a, x.1)) × ((f a x.1).0 ≡ ok b)
  step_ok (ok a, s') f b e = (a, refl, e)
  step_ok (err e', s') f b e = cc

  -- An answer of a bind comes from an answer of its first part.
  pub bind_ok :
      (m : M S A) (f : A → M S B) (s : S) (b : B)
      → ((m >>= f) s).0 ≡ ok b
      → (a : A) × (m s ≡ (ok a, (m s).1)) × ((f a (m s).1).0 ≡ ok b)
  unfolding ◌>>=◌
  bind_ok m f s b h = step_ok (m s) f b h
