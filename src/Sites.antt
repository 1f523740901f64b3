-- ===== src/Sites.antt =====
-- The checks of internal/app/site.go on a domain, its parent, the limits and the PHP version of a site.
pub mod Parents
pub mod Panel
pub mod Overrides
pub mod Checks
pub mod Add
pub mod Delete
pub mod Lists
pub mod Edit
use ngm.Base.{
  ℕ, zero, suc, ltb, Bool, true, false, not, ◌&&◌, ◌||◌, List, [], ◌∷◌, ◌++◌, Option, none, some,
  leb, ◌==◌, length, if◌then◌else◌,
}
use ngm.Text.{
  Text, text, text_eq, is_empty, trim_space, to_lower, has_prefix, has_suffix, contains,
  trim_suffix, split,
}
use ngm.Text.Place.{join}
use ngm.Store.{User, Site, ℤ, pos, negsuc}
use ngm.Apply.{normalize_domain}

-- [a-z0-9]
unfoldable pub is_alnum : ℕ → Bool
is_alnum c = (leb b'a' c && leb c b'z') || (leb b'0' c && leb c b'9')

-- The rest of a label: dashes are allowed inside, and the last byte is a letter or a digit.
unfoldable pub label_rest : Text → Bool
label_rest [] = true
label_rest (c ∷ s) =
    let rest = label_rest s in (is_alnum c || ((c == b'-') && not (is_empty s))) && rest

-- ^[a-z0-9](?:[a-z0-9-]*[a-z0-9])?$
unfoldable pub is_domain_label : Text → Bool
is_domain_label [] = false
is_domain_label (c ∷ s) = is_alnum c && label_rest s

unfoldable pub all_labels : List Text → Bool
all_labels [] = true
all_labels (p ∷ ps) =
    (leb 1 (length p) && (leb (length p) 63 && is_domain_label p)) && all_labels ps

unfoldable pub is_likely_fqdn : Text → Bool
is_likely_fqdn raw =
    let domain = normalize_domain raw in
    if is_empty domain || (contains domain (text " ") || contains domain (text ".."))
    then false
    else if has_prefix domain (text ".")
        || (has_suffix domain (text ".") || not (contains domain (text ".")))
    then false
    else all_labels (split b'.' domain)

-- Why a parent domain is refused. The text of the error is left out.
pub data ParentError : Type 0 where
  same_domain : ParentError
  not_under_parent : ParentError
  not_direct : ParentError
  parent_not_found : ParentError
  parent_not_root : ParentError
  parent_of_other_user : ParentError

-- No parent, or the parent's row and the label in front of it.
pub data ParentCheck : Type 0 where
  no_parent : ParentCheck
  under : Site → Text → ParentCheck
  refused : ParentError → ParentCheck

unfoldable pub is_root : Option Text → Bool
is_root none = true
is_root (some p) = is_empty (trim_space p)

unfoldable pub check_parent_site : User → Text → Option Site → ParentCheck
check_parent_site owner label none = refused parent_not_found
check_parent_site owner label (some site) =
    if not (is_root site.parent_domain)
    then refused parent_not_root
    else if not (site.user_id == owner.id)
    then refused parent_of_other_user
    else under site label

-- The label in front of the parent, whose TrimSuffix takes off one more dot.
unfoldable pub label_part : Text → Text → Text
label_part domain parent = trim_suffix (trim_suffix domain (text "." ++ parent)) (text ".")

module _ (get_site_by_domain : Text → Option Site) where
  unfoldable pub check_parent : User → Text → Text → ParentCheck
  check_parent owner domain parent =
      if is_empty parent
      then no_parent
      else if text_eq domain parent
      then refused same_domain
      else if not (has_suffix domain (text "." ++ parent))
      then refused not_under_parent
      else if is_empty (label_part domain parent) || contains (label_part domain parent) (text ".")
      then refused not_direct
      else check_parent_site owner (label_part domain parent) (get_site_by_domain parent)

  unfoldable pub validate_parent_domain : User → Text → Text → ParentCheck
  validate_parent_domain owner domain parent =
      check_parent owner (normalize_domain domain) (normalize_domain parent)

-- `deriveDefaultWebroot`
unfoldable pub derive_default_webroot : Text → Text → Text → Text → Text
derive_default_webroot home domain [] label =
    join (join (join home (text "sites")) domain) (text "public")
derive_default_webroot home domain (c ∷ parent) label =
    join (join (join (join (join home (text "sites")) (c ∷ parent)) (text "subdomains")) label)
      (text "public")

-- `enforceMaxLimit`: -1 is no limit.
unfoldable pub within_limit : ℤ → ℕ → Bool
within_limit (negsuc zero) current = true
within_limit (negsuc (suc n)) current = false
within_limit (pos limit) current = ltb current limit

-- `strings.EqualFold` on ASCII.
unfoldable pub equal_fold : Text → Text → Bool
equal_fold s t = text_eq (to_lower s) (to_lower t)

unfoldable pub any_version : List Text → Text → Bool
any_version [] selected = false
any_version (v ∷ vs) selected =
    equal_fold (trim_space v) (trim_space selected) || any_version vs selected

-- `validatePHPVersionAllowed`
unfoldable pub php_version_allowed : List Text → Text → Bool
php_version_allowed [] selected = true
php_version_allowed (v ∷ vs) selected = any_version (v ∷ vs) selected

-- `normalizeParentPtr`
unfoldable pub normalize_parent : Text → Option Text
normalize_parent parent =
    if is_empty (normalize_domain parent) then none else some (normalize_domain parent)
