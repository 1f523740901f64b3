-- ===== src/Web/Sites/Knobs.antt =====
-- What the forms of a site in internal/web/server.go let through to the directives of nginx.
use ngm.Base.{
  ℕ, ◌≡◌, refl, subst, sym, Bool, true, false, not, ◌&&◌, ◌||◌, List, [], ◌∷◌, Result, ok, err, leb,
  if_intro, Bool-cases, inl, inr, arith, All,
}
use ngm.Text.{Text, text, text_eq, is_empty}
use ngm.Text.Laws.{text_eq_iff}
use ngm.Text.Decimal.{is_digit}
use ngm.Sites.Checks.{SiteAddRequest}
use ngm.Sites.Edit.{SiteEditRequest}
use ngm.Web.Forms.{
  Form, after_digits, starts_with_digit, is_one_of, is_nginx_size, is_nginx_time,
  validate_nginx_knobs,
}
use ngm.Web.Sites.{add_request, posted_new, posted_edit, knobs_message, no_targets}

abbrev is_letter : ℕ → Bool
is_letter c = (leb b'A' c && leb c b'Z') || (leb b'a' c && leb c b'z')

-- Nothing but ASCII digits and letters: no blank, line break, brace or semicolon.
unfoldable pub is_plain : Text → Bool
unfolding is_digit
is_plain [] = true
is_plain (c ∷ s) = (is_digit c || is_letter c) && is_plain s

after_digits-is_plain : (s : Text) → is_plain (after_digits s) ≡ true → is_plain s ≡ true
unfolding after_digits is_plain
after_digits-is_plain [] h = refl
after_digits-is_plain (c ∷ s) h = ground (arith, after_digits-is_plain s)

one_of-is_plain :
    (s : Text) (ts : List Text)
    → All (λ t. is_plain t ≡ true) ts
    → is_one_of s ts ≡ true
    → is_plain s ≡ true
unfolding is_one_of
one_of-is_plain s [] k h = cc
one_of-is_plain s (t ∷ ts) k h = elim (Bool-cases (text_eq s t)) [
  | inl e ↦ subst (λ x. is_plain x ≡ true) (sym ((text_eq_iff s t).0 e)) k.0
  | inr e ↦ one_of-is_plain s ts k.1 (rw e at h)
]

size-is_plain : (s : Text) → is_nginx_size s ≡ true → is_plain s ≡ true
unfolding is_nginx_size is_plain text
size-is_plain s h = elim (Bool-cases (starts_with_digit s)) [
  | inl e ↦ after_digits-is_plain s (
      one_of-is_plain (after_digits s) _ (refl, (refl, (refl, (refl, (refl, (refl, (refl, tt)))))))
        (rw e at h))
  | inr e ↦ let no : false ≡ true = rw e at h in cc
]

time-is_plain : (s : Text) → is_nginx_time s ≡ true → is_plain s ≡ true
unfolding is_nginx_time is_plain text
time-is_plain s h = elim (Bool-cases (starts_with_digit s)) [
  | inl e ↦
      after_digits-is_plain s
        (one_of-is_plain (after_digits s) _ (refl, (refl, (refl, (refl, (refl, tt))))) (rw e at h))
  | inr e ↦ let no : false ≡ true = rw e at h in cc
]

blank_or :
    (s : Text) (b : Bool)
    → (b ≡ true → is_plain s ≡ true)
    → (not (is_empty s) && not b) ≡ false
    → is_plain s ≡ true
unfolding is_plain is_empty
blank_or [] b k h = refl
blank_or (c ∷ s) true k h = k refl
blank_or (c ∷ s) false k h = cc

knobs-plain :
    (a b c : Text)
    → is_empty (validate_nginx_knobs a b c) ≡ true
    → (is_plain a ≡ true) × (is_plain b ≡ true) × (is_plain c ≡ true)
unfolding validate_nginx_knobs is_empty text
knobs-plain a b c h = elim (Bool-cases (not (is_empty a) && not (is_nginx_size a))) [
  | inl e ↦ let no : false ≡ true = rw e at h in cc
  | inr e ↦ elim (Bool-cases (not (is_empty b) && not (is_nginx_time b))) [
    | inl f ↦ let no : false ≡ true = rw (e, f) at h in cc
    | inr f ↦ elim (Bool-cases (not (is_empty c) && not (is_nginx_time c))) [
      | inl g ↦ let no : false ≡ true = rw (e, f, g) at h in cc
      | inr g ↦ (
        blank_or a (is_nginx_size a) (size-is_plain a) e,
        blank_or b (is_nginx_time b) (time-is_plain b) f,
        blank_or c (is_nginx_time c) (time-is_plain c) g,
      )
    ]
  ]
]

abbrev pub Plain : Text → Text → Text → Type 0
Plain a b c = (is_plain a ≡ true) × (is_plain b ≡ true) × (is_plain c ≡ true)

-- The settings of a request that is handed on; a page with a message hands none on.
abbrev pub PlainAdd : Result SiteAddRequest → Type 0
PlainAdd (ok req) = Plain req.client_max_body_size req.php_time_read req.php_time_send
PlainAdd (err e) = Unit {0}

abbrev pub PlainEdit : Result SiteEditRequest → Type 0
PlainEdit (ok req) = Plain req.client_max_body_size req.php_time_read req.php_time_send
PlainEdit (err e) = Unit {0}

-- Whatever is posted, the body size and the timeouts of the request that a form hands to SiteAdd or to
-- SiteEdit are blank or made of ASCII digits and letters: no setting ends its directive.
pub forms-Plain : (r : Form) → PlainAdd (posted_new r) × PlainEdit (posted_edit r)
unfolding posted_new posted_edit knobs_message add_request
forms-Plain r = elim (Bool-cases (is_empty (knobs_message r))) [
  | inr e ↦ rw e (tt, tt)
  | inl e ↦
      let plain = knobs-plain _ _ _ e in
      rw e (
        if_intro PlainAdd
            (text_eq (add_request r).mode (text "proxy")
              && ((add_request r).apply_now && no_targets (add_request r).proxy_targets))
            _ _ (λ _. tt) (λ _. plain),
        plain,
      )
]
