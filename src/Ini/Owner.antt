-- ===== src/Ini/Owner.antt =====
-- What `inferUserFromWebroot` of internal/app/template.go finds in a webroot.
use ngm.Base.{
  ◌≡◌, refl, sym, ap, ◌∙◌, Bool, true, false, not, ◌&&◌, List, [], ◌∷◌, ◌++◌, Option, none, some,
  ◌==◌, ==_iff, Bool-cases, inl, inr,
}
use mathlib.Core.List.{append_assoc}
use ngm.Text.{Text, is_empty, split, split_step, trim_right}
use ngm.Ini.{first_part, behind, first_part_behind, infer_user_from_webroot}

-- No slash stands in the text.
abbrev pub is_part : Text → Bool
is_part [] = true
is_part (c ∷ s) = not (c == b'/') && is_part s

-- Nothing, or a slash and more.
abbrev pub ends_part : Text → Bool
ends_part [] = true
ends_part (c ∷ s) = c == b'/'

-- The user is the whole first part of the webroot behind the root of the homes, without its slashes at
-- the end, and a slash.
abbrev pub IsOwner : Text → Text → Text → Type 0
IsOwner home_root webroot user =
    (rest : Text) × (webroot ≡ trim_right (λ c. c == b'/') home_root ++ (b'/' ∷ (user ++ rest)))
    × (is_part user ≡ true)
    × (ends_part rest ≡ true)
    × (is_empty user ≡ false)

behind-append : (s prefix rest : Text) → behind s prefix ≡ some rest → s ≡ prefix ++ rest
unfolding behind
behind-append s [] rest h = let same : s ≡ rest = cc in same
behind-append [] (p ∷ prefix) rest h = cc
behind-append (c ∷ s) (p ∷ prefix) rest h = elim (Bool-cases (c == p)) [
  | inr e ↦ (let none_there : none ≡ some rest = rw e at h in cc)
  | inl e ↦ rw ((==_iff c p).0 e) (ap (λ t. p ∷ t) (behind-append s prefix rest (rw e at h)))
]

-- The first of the parts, and what follows it.
abbrev HasFirst : Text → Type 0
HasFirst s =
    (part : Text) × (parts : List Text) × (rest : Text) × (split b'/' s ≡ part ∷ parts)
    × (s ≡ part ++ rest)
    × (is_part part ≡ true)
    × (ends_part rest ≡ true)

split-HasFirst : (s : Text) → HasFirst s
unfolding split split_step
split-HasFirst [] = ([], [], [], refl, refl, refl, refl)
split-HasFirst (c ∷ s) = elim (Bool-cases (c == b'/')) [
  | inl e ↦ ([], split b'/' s, c ∷ s, rw e refl, refl, refl, e)
  | inr e ↦
      let (part, parts, rest, is_split, whole, plain, ends) = split-HasFirst s in
      (c ∷ part, parts, rest, rw (e, is_split) refl, ap (λ t. c ∷ t) whole, rw e plain, ends)
]

first_part-named :
    (part user : Text) (parts : List Text)
    → first_part (part ∷ parts) ≡ some user
    → (part ≡ user) × (is_empty part ≡ false)
unfolding first_part is_empty
first_part-named [] user parts h = cc
first_part-named (c ∷ part) user parts h = let same : c ∷ part ≡ user = cc in (same, refl)

first_part-owner :
    (s user : Text)
    → first_part (split b'/' s) ≡ some user
    → (rest : Text) × (s ≡ user ++ rest)
      × (is_part user ≡ true)
      × (ends_part rest ≡ true)
      × (is_empty user ≡ false)
first_part-owner s user h =
    let (part, parts, rest, is_split, whole, plain, ends) = split-HasFirst s in
    let (same, filled) = first_part-named part user parts (ap first_part (sym is_split) ∙ h) in
    (
      rest,
      whole ∙ ap (λ t. t ++ rest) same,
      ap is_part (sym same) ∙ plain,
      ends,
      ap is_empty (sym same) ∙ filled,
    )

behind-IsOwner :
    (home_root webroot user : Text) (o : Option Text)
    → behind webroot (trim_right (λ c. c == b'/') home_root ++ (b'/' ∷ [])) ≡ o
    → first_part_behind o ≡ some user
    → IsOwner home_root webroot user
unfolding first_part_behind
behind-IsOwner home_root webroot user none e h = cc
behind-IsOwner home_root webroot user (some s) e h =
    let root : Text = trim_right (λ c. c == b'/') home_root in
    let (rest, whole, plain, ends, filled) = first_part-owner s user h in
    (
      rest,
      behind-append webroot (root ++ (b'/' ∷ [])) s e
          ∙ append_assoc root (b'/' ∷ []) s
          ∙ ap (λ t. root ++ (b'/' ∷ t)) whole,
      plain,
      ends,
      filled,
    )

pub infer_user_from_webroot-IsOwner :
    (home_root webroot user : Text)
    → infer_user_from_webroot home_root webroot ≡ some user
    → IsOwner home_root webroot user
unfolding infer_user_from_webroot
infer_user_from_webroot-IsOwner home_root webroot user h =
    elim (Bool-cases (is_empty (trim_right (λ c. c == b'/') home_root))) [
      | inl e ↦ (let none_there : none ≡ some user = rw e at h in cc)
      | inr e ↦ behind-IsOwner home_root webroot user _ refl (rw e at h)
    ]
