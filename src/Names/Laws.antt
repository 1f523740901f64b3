-- ===== src/Names/Laws.antt =====
-- Which domains `MakeUpstreamKey` of internal/nginx/types.go gives the same key.
use ngm.Base.{◌≡◌, refl, ap, false, [], ◌∷◌, ◌++◌}
use ngm.Text.{Text, to_lower, lower}
use ngm.Names.{
  replace_byte, sanitize, key_or_site, make_upstream_key, replace_runs, trim_underscores,
}

same_underscores :
    (a b : Text)
    → replace_byte b'-' b'_' (replace_byte b'.' b'_' (to_lower (a ++ (b'-' ∷ b))))
      ≡ replace_byte b'-' b'_' (replace_byte b'.' b'_' (to_lower (a ++ (b'.' ∷ b))))
unfolding replace_byte to_lower lower
same_underscores [] b = refl
same_underscores (c ∷ a) b = cc (same_underscores a b)

-- A dash and a dot give the same key: two domains that differ in that share the name of their upstream.
pub make_upstream_key_dash :
    (a b : Text) → make_upstream_key (a ++ (b'-' ∷ b)) ≡ make_upstream_key (a ++ (b'.' ∷ b))
unfolding make_upstream_key sanitize
make_upstream_key_dash a b =
    ap (λ s. key_or_site (trim_underscores (replace_runs false s))) (same_underscores a b)
