-- ===== src/Base/Sort.antt =====
-- `sort.SliceStable` and `sort.Strings` as stable insertion, and what the result depends on.
use mathlib.Core.Path.{◌≡◌, refl, sym, ap, ◌∙◌}
use mathlib.Core.Logic.{inl, inr}
use mathlib.Core.Bool.{Bool, true, false}
use mathlib.Core.List.{List, [], ◌∷◌, map, foldr, Perm}
use mathlib.Core.List.Perm
use native.Mathlib.Omega.{arith}
use ngm.Base.Lists.{All}
use ngm.Base.Tests.{if◌then◌else◌, Bool-cases}

module _ {ℓ} {A : Type ℓ} (lt : A → A → Bool) where
  -- Before the first element that is not less.
  unfoldable pub insert : A → List A → List A
  insert x [] = x ∷ []
  insert x (y ∷ ys) = let rest = insert x ys in if lt y x then y ∷ rest else x ∷ y ∷ ys

  unfoldable pub sort : List A → List A
  sort xs = foldr insert [] xs

  -- What a strict order of all elements is, as a test.
  pub record IsStrictOrder : Type ℓ where
    pub asym : (a b : A) → lt a b ≡ true → lt b a ≡ false
    pub trans : (a b c : A) → lt a b ≡ true → lt b c ≡ true → lt a c ≡ true
    pub tri : (a b : A) → lt a b ≡ false → lt b a ≡ false → a ≡ b

  module _ (o : IsStrictOrder) where
    insert_comm_lt :
        (a b : A) (l : List A) → lt a b ≡ true → insert a (insert b l) ≡ insert b (insert a l)
    unfolding insert
    insert_comm_lt a b [] ab = ground (arith, o.asym a b)
    insert_comm_lt a b (y ∷ ys) ab =
        ground (arith, insert_comm_lt a b ys, o.asym a b, o.trans y a b)

    insert_comm : (a b : A) (l : List A) → insert a (insert b l) ≡ insert b (insert a l)
    insert_comm a b l = elim (Bool-cases (lt a b)) [
      | inl ab ↦ insert_comm_lt a b l ab
      | inr not_ab ↦ elim (Bool-cases (lt b a)) [
        | inl ba ↦ sym (insert_comm_lt b a l ba)
        | inr not_ba ↦ rw (o.tri a b not_ab not_ba)
      ]
    ]

    -- Lists with the same elements are sorted into one list.
    pub sort-eq_of_perm : IsSet (List A) → {xs ys : List A} → Perm xs ys → sort xs ≡ sort ys
    unfolding sort
    sort-eq_of_perm set p = Perm.foldr-eq set insert insert_comm p []

  insert-perm : (x : A) (ys : List A) → Perm (insert x ys) (x ∷ ys)
  unfolding insert
  insert-perm x [] = Perm.rfl
  insert-perm x (y ∷ ys) = elim (Bool-cases (lt y x)) [
    | inl h ↦ rw h (Perm.trans (Perm.cons y (insert-perm x ys)) (Perm.swap x y ys))
    | inr h ↦ rw h Perm.rfl
  ]

  pub sort-perm : (xs : List A) → Perm (sort xs) xs
  unfolding sort
  sort-perm [] = Perm.rfl
  sort-perm (x ∷ xs) = Perm.trans (insert-perm x (sort xs)) (Perm.cons x (sort-perm xs))

module _ {ℓ κ} {A : Type ℓ} (lt : A → A → Bool) (P : A → Type κ) where
  insert-All : (x : A) (ys : List A) → P x → All P ys → All P (insert lt x ys)
  unfolding insert
  insert-All x [] h k = (h, tt)
  insert-All x (y ∷ ys) h k = elim (Bool-cases (lt y x)) [
    | inl e ↦ rw e (k.0, insert-All x ys h k.1)
    | inr e ↦ rw e (h, (k.0, k.1))
  ]

  -- What holds of all elements holds of all when they are sorted.
  pub sort-All : (xs : List A) → All P xs → All P (sort lt xs)
  unfolding sort
  sort-All [] h = tt
  sort-All (x ∷ xs) h = insert-All x (sort lt xs) h.0 (sort-All xs h.1)

-- Sorting by a key, and then taking the keys, is sorting the keys.
module _ {ℓ κ} {A : Type ℓ} {K : Type κ} (lt : K → K → Bool) (key : A → K) where
  map-insert :
      (x : A) (ys : List A)
      → map key (insert (λ a b. lt (key a) (key b)) x ys) ≡ insert lt (key x) (map key ys)
  unfolding insert
  map-insert x [] = refl
  map-insert x (y ∷ ys) = elim (Bool-cases (lt (key y) (key x))) [
    | inl h ↦ rw h (ap (λ r. key y ∷ r) (map-insert x ys))
    | inr h ↦ rw h refl
  ]

  pub map-sort :
      (xs : List A) → map key (sort (λ a b. lt (key a) (key b)) xs) ≡ sort lt (map key xs)
  unfolding sort
  map-sort [] = refl
  map-sort (x ∷ xs) =
      map-insert x (sort (λ a b. lt (key a) (key b)) xs) ∙ ap (insert lt (key x)) (map-sort xs)
