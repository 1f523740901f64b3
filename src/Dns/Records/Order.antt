-- ===== src/Dns/Records/Order.antt =====
-- The order in which internal/dns/bind/zonefile.go writes the records of a zone.
use ngm.Base.{◌≡◌, refl, true, false, List, [], ◌∷◌, map, arith, ap, ◌∙◌, sym}
use mathlib.Core.List.{Perm}
use mathlib.Core.List.Perm
use ngm.Base.Sort.{IsStrictOrder, sort, sort-eq_of_perm, map-sort}
use ngm.Text.{Text}
use ngm.Text.Laws.{text_eq_iff}
use ngm.Text.Order.{less-IsStrictOrder}
use ngm.Dns.Records.{DnsLib, Key, key_less, key, ordered_rrs}

key_less-IsStrictOrder : IsStrictOrder key_less
unfolding key_less
key_less-IsStrictOrder = record { asym = asym; trans = trans; tri = tri }
  where
    asym : (a b : Key) → key_less a b ≡ true → key_less b a ≡ false
    asym (n, t, s) (n', t', s') h = ground (
      arith,
      text_eq_iff n n',
      text_eq_iff n' n,
      less-IsStrictOrder.asym n n',
      less-IsStrictOrder.asym s s',
    )

    trans : (a b c : Key) → key_less a b ≡ true → key_less b c ≡ true → key_less a c ≡ true
    trans (n, t, s) (n', t', s') (n'', t'', s'') h k = ground (
      arith,
      text_eq_iff n n',
      text_eq_iff n' n'',
      text_eq_iff n n'',
      less-IsStrictOrder.trans n n' n'',
      less-IsStrictOrder.trans s s' s'',
      less-IsStrictOrder.asym n n',
    )

    tri : (a b : Key) → key_less a b ≡ false → key_less b a ≡ false → a ≡ b
    tri (n, t, s) (n', t', s') h k = ground (
      arith,
      text_eq_iff n n',
      text_eq_iff n' n,
      less-IsStrictOrder.tri n n',
      less-IsStrictOrder.tri s s',
    )

module _ (lib : DnsLib) where
  open lib use {RR, to_string}

  lines_of : List Key → List Text
  lines_of keys = map (λ (k : Key). k.2) keys

  map-lines : (rrs : List RR) → map to_string rrs ≡ lines_of (map (key lib) rrs)
  unfolding lines_of
  map-lines [] = refl
  map-lines (rr ∷ rrs) = ap (λ l. to_string rr ∷ l) (map-lines rrs)

  ordered_keys :
      (rrs : List RR) → map (key lib) (ordered_rrs lib rrs) ≡ sort key_less (map (key lib) rrs)
  unfolding ordered_rrs
  ordered_keys rrs = map-sort key_less (key lib) rrs

  -- The lines of a zone file depend on the records alone, not on their order.
  pub ordered_rrs_lines :
      {rrs rrs' : List RR}
      → Perm rrs rrs'
      → map to_string (ordered_rrs lib rrs) ≡ map to_string (ordered_rrs lib rrs')
  ordered_rrs_lines {rrs} {rrs'} p =
      map-lines (ordered_rrs lib rrs)
      ∙ ap lines_of (
          ordered_keys rrs
          ∙ sort-eq_of_perm key_less key_less-IsStrictOrder (hlevel) (Perm.map (key lib) p)
          ∙ sym (ordered_keys rrs'))
      ∙ sym (map-lines (ordered_rrs lib rrs'))
