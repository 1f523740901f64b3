-- ===== src/Backup/Scope.antt =====
-- The scopes of `buildDump` of internal/backup/backup.go: the panel users that a backup takes in.
use ngm.Base.{
  ℕ, Bool, false, ◌&&◌, ◌||◌, List, [], ◌∷◌, Option, none, some, Result, ok, err, errorf,
  if◌then◌else◌, map,
}
use ngm.Text.{Text, text, text_eq, trim_space}
use ngm.Store.{PanelUser}
use ngm.Web.Access.{is_id}
use ngm.Backup.{ManifestSubject, BackupOptions}

unfoldable pub or_else : Option PanelUser → Option PanelUser → Option PanelUser
or_else (some u) o = some u
or_else none o = o

-- `panelByName[name]`: of rows with one name the last is kept.
unfoldable pub panel_by_name : Text → List PanelUser → Option PanelUser
panel_by_name name [] = none
panel_by_name name (u ∷ us) =
    or_else (panel_by_name name us) (if text_eq u.username name then some u else none)

-- `includeUsernames[name]`
unfoldable pub is_included : Text → List Text → Bool
is_included name [] = false
is_included name (n ∷ ns) = text_eq n name || is_included name ns

-- The users of a reseller.
unfoldable pub names_under : ℕ → List PanelUser → List Text
names_under id [] = []
names_under id (u ∷ us) =
    let rest = names_under id us in
    if text_eq u.role (text "user") && is_id u.reseller_id id then u.username ∷ rest else rest

abbrev pub subject_of : Text → ℕ → ℕ → ManifestSubject
subject_of name id reseller = record { username = name; user_id = id; reseller_id = reseller }

unfoldable pub id_or_zero : Option ℕ → ℕ
id_or_zero none = 0
id_or_zero (some id) = id

unfoldable pub user_scope : Text → Option PanelUser → Result (List Text × ManifestSubject)
user_scope username none = err (errorf (text "panel user not found"))
user_scope username (some pu) =
    ok (username ∷ [], subject_of pu.username pu.id (id_or_zero pu.reseller_id))

unfoldable pub reseller_scope :
    Text → List PanelUser → Option PanelUser → Result (List Text × ManifestSubject)
reseller_scope username us none = err (errorf (text "reseller not found"))
reseller_scope username us (some r) =
    if text_eq r.role (text "reseller")
    then ok (username ∷ names_under r.id us, subject_of r.username r.id r.id)
    else err (errorf (text "reseller not found"))

-- The names that the scope takes in, and whom the manifest names. The errors leave out what they quote.
unfoldable pub scope_of : BackupOptions → List PanelUser → Result (List Text × ManifestSubject)
scope_of opts us =
    let username = trim_space opts.username in
    if text_eq opts.scope (text "user")
    then user_scope username (panel_by_name username us)
    else if text_eq opts.scope (text "reseller")
    then reseller_scope username us (panel_by_name username us)
    else if text_eq opts.scope (text "all")
    then ok (map (λ (u : PanelUser). u.username) us, subject_of [] 0 0)
    else err (errorf (text "invalid scope"))
