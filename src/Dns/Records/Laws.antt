-- ===== src/Dns/Records/Laws.antt =====
-- How adding and removing records in internal/dns/bind/zonefile.go work together.
use ngm.Base.{
  ℕ, ◌≡◌, refl, Bool, true, false, not, ◌&&◌, ◌||◌, List, [], ◌∷◌, ◌++◌, ◌==◌, arith, Bool-cases,
  inl, inr,
}
use ngm.Text.{Text, text_eq}
use ngm.Text.Laws.{text_eq_iff}
use ngm.Dns.Records.{DnsLib, has_string, ensure_rr, remove_rr_on_name_and_type}

module _ (lib : DnsLib) where
  open lib use {RR, name, rrtype, to_string}

  -- A record with the name and the type.
  unfoldable pub is_at : Text → ℕ → RR → Bool
  is_at n t rr = text_eq (name rr) n && (rrtype rr == t)

  unfoldable pub any_at : Text → ℕ → List RR → Bool
  any_at n t [] = false
  any_at n t (rr ∷ rrs) = is_at n t rr || any_at n t rrs

  -- No two records print alike.
  unfoldable pub distinct : List RR → Bool
  distinct [] = true
  distinct (rr ∷ rrs) = not (has_string lib (to_string rr) rrs) && distinct rrs

  has_string-append :
      (s : Text) (xs : List RR) (rr : RR)
      → has_string lib s (xs ++ (rr ∷ [])) ≡ (has_string lib s xs || text_eq (to_string rr) s)
  unfolding has_string
  has_string-append s [] rr = ground arith
  has_string-append s (x ∷ xs) rr = ground (arith, has_string-append s xs rr)

  -- The wanted record is there, and all that was there still is.
  pub has_string-ensure_rr :
      (s : Text) (rrs : List RR) (rr : RR)
      → has_string lib s (ensure_rr lib rrs rr) ≡ (has_string lib s rrs || text_eq (to_string rr) s)
  unfolding ensure_rr
  has_string-ensure_rr s rrs rr = elim (Bool-cases (has_string lib (to_string rr) rrs)) [
    | inl h ↦ rw h (ground (arith, text_eq_iff (to_string rr) s))
    | inr h ↦ rw h (has_string-append s rrs rr)
  ]

  distinct-append :
      (rrs : List RR) (rr : RR)
      → distinct rrs ≡ true
      → has_string lib (to_string rr) rrs ≡ false
      → distinct (rrs ++ (rr ∷ [])) ≡ true
  unfolding distinct has_string
  distinct-append [] rr h k = refl
  distinct-append (x ∷ rrs) rr h k = ground (
    arith,
    distinct-append rrs rr,
    has_string-append (to_string x) rrs rr,
    text_eq_iff (to_string x) (to_string rr),
    text_eq_iff (to_string rr) (to_string x),
  )

  pub distinct-ensure_rr :
      (rrs : List RR) (rr : RR) → distinct rrs ≡ true → distinct (ensure_rr lib rrs rr) ≡ true
  unfolding ensure_rr
  distinct-ensure_rr rrs rr h = ground (arith, distinct-append rrs rr h)

  pub any_at-remove :
      (rrs : List RR) (n : Text) (t : ℕ)
      → any_at n t (remove_rr_on_name_and_type lib rrs n t) ≡ false
  unfolding any_at is_at remove_rr_on_name_and_type
  any_at-remove [] n t = refl
  any_at-remove (rr ∷ rrs) n t = ground (arith, any_at-remove rrs n t)

  remove-append :
      (rrs : List RR) (rr : RR) (n : Text) (t : ℕ)
      → is_at n t rr ≡ true
      → remove_rr_on_name_and_type lib (rrs ++ (rr ∷ [])) n t
        ≡ remove_rr_on_name_and_type lib rrs n t
  unfolding remove_rr_on_name_and_type is_at
  remove-append [] rr n t h = ground arith
  remove-append (x ∷ rrs) rr n t h = ground (arith, remove-append rrs rr n t)

  -- Removing the records at a name undoes the adding of one.
  pub remove-ensure_rr :
      (rrs : List RR) (rr : RR) (n : Text) (t : ℕ)
      → is_at n t rr ≡ true
      → remove_rr_on_name_and_type lib (ensure_rr lib rrs rr) n t
        ≡ remove_rr_on_name_and_type lib rrs n t
  unfolding ensure_rr
  remove-ensure_rr rrs rr n t h = ground (arith, remove-append rrs rr n t h)

  -- Records of another name or type stay, in their order.
  pub remove-other :
      (rrs : List RR) (n : Text) (t : ℕ)
      → any_at n t rrs ≡ false
      → remove_rr_on_name_and_type lib rrs n t ≡ rrs
  unfolding any_at is_at remove_rr_on_name_and_type
  remove-other [] n t h = refl
  remove-other (rr ∷ rrs) n t h = ground (arith, remove-other rrs n t)

  -- The order of two removals does not matter.
  pub remove_comm :
      (rrs : List RR) (n n' : Text) (t t' : ℕ)
      → remove_rr_on_name_and_type lib (remove_rr_on_name_and_type lib rrs n t) n' t'
        ≡ remove_rr_on_name_and_type lib (remove_rr_on_name_and_type lib rrs n' t') n t
  unfolding remove_rr_on_name_and_type
  remove_comm [] n n' t t' = refl
  remove_comm (rr ∷ rrs) n n' t t' = ground (arith, remove_comm rrs n n' t t')

  pub any_at-remove_other :
      (rrs : List RR) (n n' : Text) (t t' : ℕ)
      → any_at n t rrs ≡ false
      → any_at n t (remove_rr_on_name_and_type lib rrs n' t') ≡ false
  unfolding any_at is_at remove_rr_on_name_and_type
  any_at-remove_other [] n n' t t' h = refl
  any_at-remove_other (rr ∷ rrs) n n' t t' h = ground (arith, any_at-remove_other rrs n n' t t')
