-- ===== src/Scenario/DnsWitnesses.antt =====
-- The theorems on zones, each at a concrete library and zone.
use mathlib.Core.List.Perm
use ngm.Base.{◌≡◌, refl, List, [], ◌∷◌, ◌++◌, map}
use ngm.Text.{is_empty, Text, text, text_eq, has_suffix}
use ngm.Text.Decimal.{decimal, digits}
use ngm.Os.Paths.{live}
use ngm.Os.Frame.{Keeps}
use ngm.Dns.Records.{
  ordered_rrs, ensure_rr, has_string, remove_rr_on_name_and_type_and_data, type_a, type_ns,
  type_soa,
}
use ngm.Dns.Records.Order.{ordered_rrs_lines}
use ngm.Dns.Zone.{ZoneModel}
use ngm.Dns.Entry.{count_at}
use ngm.Dns.Bind.{
  ensure_addresses, ensure_next, ensure_address, ensure_parsed, address_line, without_addresses,
  ensure_root_records, root_base, root_rest, ensure_nameservers, ensure_records, soa_of,
  ensure_subdomain_site,
}
use ngm.Dns.Bind.Laws.{without_addresses-ensure_addresses, is_absolute}
use ngm.Dns.Bind.Soa.{is_unescaped, count_at-ensure_root_records}
use ngm.Dns.Bind.Frame.{ensure_subdomain_site-Keeps}
use ngm.Scenario.{site_a}
use ngm.Scenario.Zones.{
  lib, lib-ParsesAddresses, lib-Literals, zone, ip, ip6, sub_input, template, bind, typed, name_of,
  type_of, first_word, after_word,
}

abbrev rr_a : Text
rr_a = type_a ∷ (zone ++ (b' ' ∷ ip))

abbrev rr_ns : Text
rr_ns = type_ns ∷ (zone ++ (b' ' ∷ ip6))

ordered_rrs_lines_example :
    map lib.to_string (ordered_rrs lib (rr_a ∷ rr_ns ∷ []))
    ≡ map lib.to_string (ordered_rrs lib (rr_ns ∷ rr_a ∷ []))
ordered_rrs_lines_example = ordered_rrs_lines lib (Perm.swap rr_ns rr_a [])

abbrev name : Text
name = zone ++ (b'.' ∷ [])

abbrev with_addresses : List Text
with_addresses =
    rr_ns
    ∷ (type_a ∷ (name ++ (text " 60 IN A " ++ ip)))
    ∷ (28 ∷ (name ++ (text " 60 IN AAAA " ++ ip6)))
    ∷ []

without_addresses-ensure_addresses_example :
    without_addresses lib name with_addresses ≡ without_addresses lib name (rr_ns ∷ [])
unfolding ensure_addresses ensure_next ensure_address ensure_parsed address_line ensure_rr
    has_string typed first_word after_word text text_eq decimal digits is_empty is_unescaped
    is_absolute
without_addresses-ensure_addresses_example =
    without_addresses-ensure_addresses lib lib-ParsesAddresses name refl 60 sub_input (rr_ns ∷ [])
      with_addresses refl

abbrev empty_zone : ZoneModel lib
empty_zone = record {
  origin = name;
  ttl = 60;
  rrs = rr_ns ∷ (type_soa ∷ (name ++ text " old")) ∷ [];
}

abbrev root_rrs : List Text
root_rrs =
    rr_ns
    ∷ (type_soa ∷ (name ++ text " n 7"))
    ∷ (type_ns ∷ (name ++ text " n"))
    ∷ (type_a ∷ (name ++ (text " 60 IN A " ++ ip)))
    ∷ (28 ∷ (name ++ (text " 60 IN AAAA " ++ ip6)))
    ∷ []

count_at-ensure_root_records_example : count_at lib (lib.fqdn zone) type_soa root_rrs ≡ 1
unfolding ensure_root_records root_base root_rest ensure_nameservers ensure_records soa_of
    remove_rr_on_name_and_type_and_data ensure_addresses ensure_next ensure_address ensure_parsed
    address_line ensure_rr has_string typed first_word after_word name_of type_of text text_eq
    decimal digits is_empty is_unescaped is_absolute has_suffix
count_at-ensure_root_records_example =
    count_at-ensure_root_records lib lib-ParsesAddresses lib-Literals empty_zone zone template
      sub_input 7 root_rrs refl (refl, (refl, tt)) tt refl

ensure_subdomain_site-Keeps_example : Keeps (live site_a) (ensure_subdomain_site lib bind sub_input)
ensure_subdomain_site-Keeps_example = ensure_subdomain_site-Keeps lib bind refl sub_input refl
