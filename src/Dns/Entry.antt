-- ===== src/Dns/Entry.antt =====
-- `GetSiteEntry` of internal/dns/bind/bind.go: what the zone file says of a site.
use ngm.Base.{
  ℕ, ◌+◌, ◌&&◌, List, [], ◌∷◌, ◌++◌, Option, none, some, Error, Result, ok, err, ◌==◌,
  if◌then◌else◌,
}
use ngm.Text.{Text, text, text_eq}
use ngm.Text.Decimal.{decimal}
use ngm.Os.Paths.{other}
use ngm.Os.{World, stat}
use ngm.Dns.{SiteDnsInput, DnsEntry, validate, kind_root, kind_subdomain}
use ngm.Dns.Records.{DnsLib, type_a, type_ns, type_soa, type_aaaa}
use ngm.Dns.Zone.{BindHost, ZoneModel, zone_path, load_zone}
use ngm.Dns.Bind.{normalize_domain, default_ttl}

-- An entry and an error, as Go returns both.
abbrev pub Answer : Type 0
Answer = (DnsEntry × Option Error) × World

unfoldable pub empty_entry : DnsEntry
empty_entry = record {
  fqdn = [];
  zone = [];
  kind = [];
  status = [];
  record_text = [];
  zone_file = [];
}

module _ (lib : DnsLib) where
  open lib use {RR, name, rrtype, fqdn}

  unfoldable pub count_type : ℕ → List RR → ℕ
  count_type t [] = 0
  count_type t (rr ∷ rrs) = (if rrtype rr == t then 1 else 0) + count_type t rrs

  unfoldable pub count_at : Text → ℕ → List RR → ℕ
  count_at n t [] = 0
  count_at n t (rr ∷ rrs) =
      (if text_eq (name rr) n && (rrtype rr == t) then 1 else 0) + count_at n t rrs

  unfoldable pub with_status : Text → List Text → DnsEntry → DnsEntry
  with_status status record_text e = record e { status = status; record_text = record_text }

  unfoldable pub counts : Text → ℕ → Text → ℕ → Text
  counts a n b m = a ++ (decimal n ++ (b ++ decimal m))

  unfoldable pub root_entry : DnsEntry → Result (ZoneModel lib) × World → Answer
  root_entry e (err e', w) = ((with_status (text "error") [] e, some e'), w)
  root_entry e (ok z, w) = (
    (
      with_status (text "zone")
          (counts (text "SOA:") (count_type type_soa z.rrs) (text " NS:") (count_type type_ns z.rrs)
            ∷ [])
          e,
      none,
    ),
    w,
  )

  unfoldable pub record_entry : Text → DnsEntry → Result (ZoneModel lib) × World → Answer
  record_entry n e (err e', w) =
      if e'.not_exist
      then ((with_status (text "missing") [] e, none), w)
      else ((with_status (text "error") [] e, some e'), w)
  record_entry n e (ok z, w) =
      let a = count_at n type_a z.rrs in
      let aaaa = count_at n type_aaaa z.rrs in
      (
        (
          with_status (if (a == 0) && (aaaa == 0) then text "missing" else text "record")
              (counts (text "A:") a (text " AAAA:") aaaa ∷ []) e,
          none,
        ),
        w,
      )

  module _ (host : BindHost) where
    unfoldable pub root_found : Text → DnsEntry → Result (Unit {0}) × World → Answer
    root_found zone e (err e', w) =
        if e'.not_exist
        then ((with_status (text "missing") [] e, none), w)
        else ((with_status (text "error") [] e, some e'), w)
    root_found zone e (ok u, w) = root_entry e (load_zone lib host zone (default_ttl lib host) w)

    unfoldable pub entry_zone : SiteDnsInput → Text
    entry_zone in' =
        if text_eq in'.site_kind kind_subdomain
        then normalize_domain in'.parent_domain
        else normalize_domain in'.fqdn

    unfoldable pub new_entry : SiteDnsInput → Text → DnsEntry
    new_entry in' kind = record {
      fqdn = fqdn (normalize_domain in'.fqdn);
      zone = entry_zone in';
      kind = kind;
      status = [];
      record_text = [];
      zone_file = zone_path lib host (entry_zone in');
    }

    unfoldable pub entry_of : SiteDnsInput → Result (Unit {0}) → World → Answer
    entry_of in' (err e) w = ((empty_entry, some e), w)
    entry_of in' (ok u) w =
        if text_eq in'.site_kind kind_root
        then root_found (entry_zone in') (new_entry in' (text "root-zone"))
            (stat host.env (other (zone_path lib host (entry_zone in'))) w)
        else record_entry (fqdn (normalize_domain in'.fqdn))
            (new_entry in' (text "subdomain-record"))
            (load_zone lib host (entry_zone in') (default_ttl lib host) w)

    unfoldable pub get_site_entry : SiteDnsInput → World → Answer
    get_site_entry in' w = entry_of in' (validate in') w
