-- ===== src/Sites/Lists.antt =====
-- `SiteList` and `DNSList` of internal/app/site.go. The formatted time of a site is left out.
use ngm.Base.{
  Bool, not, ◌&&◌, List, [], ◌∷◌, Option, none, some, ok, Error, if◌then◌else◌, return, ◌>>=◌,
}
use ngm.Text.{Text, text, text_eq, is_empty}
use ngm.Dns.{Provider, DnsEntry}
use ngm.Store.{Site}
use ngm.Store.Db.Sites.{list_sites}
use ngm.Apply.{normalize_domain}
use ngm.Apply.Needs.{compute_site_state}
use ngm.Sites.Panel.{Panel, Act, SiteHost, on_db}
use ngm.Sites.Checks.{site_dns_input_from_parts}
use ngm.Sites.Delete.{parent_of}

pub record SiteListItem : Type 0 where
  pub site : Site
  pub state : Text
  pub dns_status : Text

unfoldable pub status_of : DnsEntry × Option Error → Text
status_of (entry, none) = entry.status
status_of (entry, some e) = text "error"

module _ (host : SiteHost) where
  unfoldable pub dns_entry : Provider → Site → Panel → (DnsEntry × Option Error) × Panel
  dns_entry dns s p =
      let (answer, w) =
        dns.get_site_entry (site_dns_input_from_parts host s.domain (parent_of s.parent_domain))
          p.world in
      (answer, record p { world = w })

  unfoldable pub dns_status_of : Option Provider → Site → Act Text
  dns_status_of none s p = (ok (text "disabled"), p)
  dns_status_of (some dns) s p = let (answer, p') = dns_entry dns s p in (ok (status_of answer), p')

  unfoldable pub items : List Site → Act (List SiteListItem)
  items [] = return []
  items (s ∷ ss) = do
    status ← dns_status_of host.dns s
    rest ← items ss
    return (record { site = s; state = compute_site_state s; dns_status = status } ∷ rest)

  unfoldable pub site_list : Act (List SiteListItem)
  site_list = do sites ← on_db (list_sites host.fault); items sites

  -- The entry of a host without DNS.
  unfoldable pub disabled_entry : Site → DnsEntry
  disabled_entry s =
      let in' = site_dns_input_from_parts host s.domain (parent_of s.parent_domain) in
      record {
        fqdn = normalize_domain s.domain;
        zone = if is_empty in'.parent_domain then in'.fqdn else in'.parent_domain;
        kind = in'.site_kind;
        status = text "disabled";
        record_text = [];
        zone_file = [];
      }

  unfoldable pub failed_entry : Site → DnsEntry → DnsEntry
  failed_entry s entry =
      let in' = site_dns_input_from_parts host s.domain (parent_of s.parent_domain) in
      record {
        fqdn = normalize_domain s.domain;
        zone = in'.parent_domain;
        kind = in'.site_kind;
        status = text "error";
        record_text = [];
        zone_file = entry.zone_file;
      }

  unfoldable pub listed_entry : Site → DnsEntry × Option Error → DnsEntry
  listed_entry s (entry, none) = entry
  listed_entry s (entry, some e) = failed_entry s entry

  unfoldable pub entry_of_site : Option Provider → Site → Act DnsEntry
  entry_of_site none s p = (ok (disabled_entry s), p)
  entry_of_site (some dns) s p =
      let (answer, p') = dns_entry dns s p in (ok (listed_entry s answer), p')

  unfoldable pub filtered_out : Text → Site → Bool
  filtered_out wanted s = not (is_empty wanted) && not (text_eq (normalize_domain s.domain) wanted)

  unfoldable pub entries : Text → List Site → Act (List DnsEntry)
  entries wanted [] = return []
  entries wanted (s ∷ ss) =
      let rest = entries wanted ss in
      if filtered_out wanted s
      then rest
      else do entry ← entry_of_site host.dns s; more ← rest; return (entry ∷ more)

  unfoldable pub dns_list : Text → Act (List DnsEntry)
  dns_list domain_filter = do
    sites ← on_db (list_sites host.fault)
    entries (normalize_domain domain_filter) sites
