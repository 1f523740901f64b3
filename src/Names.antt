-- ===== src/Names.antt =====
-- Keys made of domain names: `MakeUpstreamKey` of internal/nginx/types.go, and `makeKey`,
-- `SocketPath` and `PoolFilePath` of internal/fpm/ensure.go.
pub mod Laws
use ngm.Base.{ℕ, Bool, false, not, ◌&&◌, ◌||◌, [], ◌∷◌, ◌++◌, map, leb, ◌==◌, if◌then◌else◌}
use ngm.Text.Place.{join}
use ngm.Text.{Text, text, is_empty, trim_left, trim_right, trim_space, to_lower}

-- `strings.ReplaceAll` of one byte by another.
unfoldable pub replace_byte : ℕ → ℕ → Text → Text
replace_byte old new s = map (λ c. if c == old then new else c) s

-- [a-zA-Z0-9_]
unfoldable pub is_ident : ℕ → Bool
is_ident c =
    (leb b'a' c && leb c b'z')
    || (leb b'A' c && leb c b'Z')
    || (leb b'0' c && leb c b'9')
    || (c == b'_')

-- Each run of bytes outside [a-zA-Z0-9_] becomes one '_'; `inside` says that a run is open.
unfoldable pub replace_runs : Bool → Text → Text
unfolding is_ident
replace_runs inside [] = []
replace_runs inside (c ∷ s) =
    let rest = replace_runs (not (is_ident c)) s in
    if is_ident c then c ∷ rest else if inside then rest else b'_' ∷ rest

unfoldable pub is_underscore : ℕ → Bool
is_underscore c = c == b'_'

-- `strings.Trim(s, "_")`
unfoldable pub trim_underscores : Text → Text
unfolding is_underscore trim_left trim_right is_empty
trim_underscores s = trim_right is_underscore (trim_left is_underscore s)

unfoldable pub key_or_site : Text → Text
key_or_site [] = text "site"
key_or_site (c ∷ s) = c ∷ s

unfoldable pub sanitize : Text → Text
unfolding replace_byte replace_runs trim_underscores
sanitize s =
    trim_underscores (replace_runs false (replace_byte b'-' b'_' (replace_byte b'.' b'_' s)))

unfoldable pub make_upstream_key : Text → Text
unfolding key_or_site sanitize
make_upstream_key domain = key_or_site (sanitize (to_lower domain))

unfoldable pub make_key : Text → Text
unfolding key_or_site sanitize
make_key s = key_or_site (sanitize (to_lower (trim_space s)))

unfoldable pub socket_path : Text → Text → Text → Text
unfolding make_key join
socket_path sock_dir domain php_version =
    join sock_dir (text "ngm-" ++ (make_key domain ++ (text "-" ++ (php_version ++ text ".sock"))))

unfoldable pub pool_file_path : Text → Text → Text
unfolding make_key join
pool_file_path pools_dir domain = join pools_dir (text "ngm-" ++ (make_key domain ++ text ".conf"))
