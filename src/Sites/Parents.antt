-- ===== src/Sites/Parents.antt =====
-- What the parent domain is that `validateParentDomain` of internal/app/site.go accepts.
use mathlib.Core.List.{append_assoc}
use ngm.Base.{
  ◌≡◌, refl, sym, ap, subst, ◌⊎◌, ==_iff, Bool, true, false, not, ◌||◌, [], ◌∷◌, ◌++◌, Option, none,
  some, if◌then◌else◌, arith, ◌==◌, ◌∙◌, Bool-cases, inl, inr,
}
use ngm.Text.{Text, text, text_eq, is_empty, has_suffix, contains, trim_suffix}
use ngm.Text.Laws.{text_eq_iff}
use ngm.Store.{User, Site}
use ngm.Apply.{normalize_domain}
use ngm.Sites.{
  ParentCheck, ParentError, under, is_root, check_parent_site, label_part, check_parent,
  validate_parent_domain,
}

-- What `strings.TrimSuffix` leaves of a text with the suffix, and the suffix, are the text.
trim_suffix-append :
    (s suffix : Text) → has_suffix s suffix ≡ true → trim_suffix s suffix ++ suffix ≡ s
unfolding has_suffix trim_suffix
trim_suffix-append [] suffix h = ground (arith, text_eq_iff [] suffix)
trim_suffix-append (c ∷ s) suffix h = elim (Bool-cases (text_eq (c ∷ s) suffix)) [
  | inl e ↦ rw e (sym ((text_eq_iff (c ∷ s) suffix).0 e))
  | inr e ↦ rw e (ap (λ r. c ∷ r) (trim_suffix-append s suffix (rw e at h)))
]

-- Without the suffix, `strings.TrimSuffix` changes nothing.
trim_suffix_none : (s suffix : Text) → has_suffix s suffix ≡ false → trim_suffix s suffix ≡ s
unfolding has_suffix trim_suffix
trim_suffix_none [] suffix h = refl
trim_suffix_none (c ∷ s) suffix h = ground (arith, trim_suffix_none s suffix)

-- The label, one dot or two, and the parent.
abbrev pub IsLabelled : Text → Text → Text → Type 0
IsLabelled domain parent label =
    (label ++ (b'.' ∷ parent) ≡ domain) ⊎ (label ++ (b'.' ∷ b'.' ∷ parent) ≡ domain)

label_part-IsLabelled :
    (domain parent : Text)
    → has_suffix domain (text "." ++ parent) ≡ true
    → IsLabelled domain parent (label_part domain parent)
unfolding label_part text
label_part-IsLabelled domain parent h =
    let front : Text = trim_suffix domain (text "." ++ parent) in
    let whole = trim_suffix-append domain (text "." ++ parent) h in
    elim (Bool-cases (has_suffix front (text "."))) [
      | inl e ↦ inr (
          sym (append_assoc (trim_suffix front (text ".")) (text ".") (text "." ++ parent))
          ∙ ap (λ f. f ++ (text "." ++ parent)) (trim_suffix-append front (text ".") e)
          ∙ whole)
      | inr e ↦
          inl (ap (λ f. f ++ (text "." ++ parent)) (trim_suffix_none front (text ".") e) ∙ whole)
    ]

-- The parent of a domain that is accepted: the domain is the label, one dot or two, and the parent, the
-- label is not empty and has no dot, and the parent is a root domain of the same user.
abbrev pub IsParent : (Text → Option Site) → User → Text → Text → Site → Text → Type 0
IsParent get owner domain parent site label =
    IsLabelled domain parent label
    × ((is_empty label ≡ false)
        × ((contains label (text ".") ≡ false)
            × ((get parent ≡ some site)
                × ((is_root site.parent_domain ≡ true) × (site.user_id ≡ owner.id)))))

site_guards :
    (root mine : Bool) (s site : Site) (label label' : Text)
    → (if not root
        then ParentCheck.refused ParentError.parent_not_root
        else if not mine
        then ParentCheck.refused ParentError.parent_of_other_user
        else under s label)
      ≡ under site label'
    → (root ≡ true) × ((mine ≡ true) × ((s ≡ site) × (label' ≡ label)))
site_guards false mine s site label label' h = cc
site_guards true false s site label label' h = cc
site_guards true true s site label label' h = (refl, (refl, (cc, cc)))

parent_site :
    (owner : User) (label : Text) (found : Option Site) (site : Site) (label' : Text)
    → check_parent_site owner label found ≡ under site label'
    → (found ≡ some site)
      × ((label' ≡ label) × ((is_root site.parent_domain ≡ true) × (site.user_id ≡ owner.id)))
unfolding check_parent_site
parent_site owner label none site label' h = cc
parent_site owner label (some s) site label' h =
    let (root, (mine, (same, is_label))) =
      site_guards (is_root s.parent_domain) (s.user_id == owner.id) s site label label' h in
    (
      ap some same,
      (
        is_label,
        (
          ap (λ (t : Site). is_root t.parent_domain) (sym same) ∙ root,
          ap (λ (t : Site). t.user_id) (sym same) ∙ (==_iff s.user_id owner.id).0 mine,
        ),
      ),
    )

parent_guards :
    (empty same suffix void dotted : Bool) (x : ParentCheck) (site : Site) (label : Text)
    → (if empty
        then ParentCheck.no_parent
        else if same
        then ParentCheck.refused ParentError.same_domain
        else if not suffix
        then ParentCheck.refused ParentError.not_under_parent
        else if void || dotted
        then ParentCheck.refused ParentError.not_direct
        else x)
      ≡ under site label
    → (suffix ≡ true) × ((void ≡ false) × ((dotted ≡ false) × (x ≡ under site label)))
parent_guards true same suffix void dotted x site label h = cc
parent_guards false true suffix void dotted x site label h = cc
parent_guards false false false void dotted x site label h = cc
parent_guards false false true true dotted x site label h = cc
parent_guards false false true false true x site label h = cc
parent_guards false false true false false x site label h = (refl, (refl, (refl, h)))

module _ (get : Text → Option Site) where
  check_parent-IsParent :
      (owner : User) (domain parent : Text) (site : Site) (label : Text)
      → check_parent get owner domain parent ≡ under site label
      → IsParent get owner domain parent site label
  unfolding check_parent
  check_parent-IsParent owner domain parent site label h =
      let (suffix, (filled, (direct, found))) =
        parent_guards (is_empty parent) (text_eq domain parent)
          (has_suffix domain (text "." ++ parent)) (is_empty (label_part domain parent))
          (contains (label_part domain parent) (text "."))
          (check_parent_site owner (label_part domain parent) (get parent)) site label h in
      let (is_site, (is_label, (root, mine))) =
        parent_site owner (label_part domain parent) (get parent) site label found in
      (
        subst (IsLabelled domain parent) (sym is_label)
            (label_part-IsLabelled domain parent suffix),
        (
          ap is_empty is_label ∙ filled,
          (ap (λ l. contains l (text ".")) is_label ∙ direct, (is_site, (root, mine))),
        ),
      )

  -- A parent domain is accepted only if the domain is a label that is not empty and has no dot, one dot or
  -- two, and the parent, and the parent is the row of a root domain of the same user.
  pub validate_parent_domain-IsParent :
      (owner : User) (domain parent : Text) (site : Site) (label : Text)
      → validate_parent_domain get owner domain parent ≡ under site label
      → IsParent get owner (normalize_domain domain) (normalize_domain parent) site label
  unfolding validate_parent_domain
  validate_parent_domain-IsParent owner domain parent site label h =
      check_parent-IsParent owner (normalize_domain domain) (normalize_domain parent) site label h
