-- ===== src/Dns/Include/Laws.antt =====
-- The include file of internal/dns/bind/namedconf.go does not depend on the order of the directory.
use ngm.Base.{◌≡◌, ap, List, ◌++◌}
use mathlib.Core.List.{Perm}
use ngm.Base.Sort.{sort-eq_of_perm}
use ngm.Text.{Text, text, less}
use ngm.Text.Order.{less-IsStrictOrder}
use ngm.Dns.Records.{DnsLib}
use ngm.Dns.Zone.{BindHost}
use ngm.Dns.Include.{include_text, stanzas}

-- The same zones, in any order, give the same include file.
pub include_text_perm :
    (lib : DnsLib) (host : BindHost) {zones zones' : List Text}
    → Perm zones zones'
    → include_text lib host zones ≡ include_text lib host zones'
unfolding include_text
include_text_perm lib host p =
    ap (λ zs. text "// generated by NGM. DO NOT EDIT.\n" ++ stanzas lib host zs)
      (sort-eq_of_perm less less-IsStrictOrder (hlevel) p)
