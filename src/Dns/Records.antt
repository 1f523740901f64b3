-- ===== src/Dns/Records.antt =====
-- The lists of resource records in internal/dns/bind/zonefile.go. A record of the miekg/dns package
-- is a value of a type that is a parameter, with the calls that the program makes on it.
pub mod Order
pub mod Laws
use ngm.Base.{
  ℕ, Bool, true, false, not, ◌&&◌, ◌||◌, List, [], ◌∷◌, ◌++◌, Option, none, some, Result, ok, err,
  ltb, ◌==◌, if◌then◌else◌,
}
use ngm.Base.Sort.{sort}
use ngm.Text.{Text, text_eq, less}

-- `new_rr` is `dns.NewRR`; `soa` and `ns` are the literals `&dns.SOA{...}` and `&dns.NS{...}` from
-- the name, the TTL and the fields; `parse_zone` is `dns.NewZoneParser` from the file's content and
-- the origin, with all its records, or its error.
pub record DnsLib : Type 1 where
  pub RR : Type 0
  pub name : RR → Text
  pub rrtype : RR → ℕ
  pub ttl : RR → ℕ
  pub to_string : RR → Text
  pub fqdn : Text → Text
  pub new_rr : Text → Result RR
  pub soa : Text → ℕ → Text → Text → ℕ → ℕ → ℕ → ℕ → ℕ → RR
  pub ns : Text → ℕ → Text → RR
  pub parse_zone : Text → Text → Result (List RR)

-- The numbers of the record types A, NS, SOA and AAAA.
abbrev pub type_a : ℕ
type_a = 1

abbrev pub type_ns : ℕ
type_ns = 2

abbrev pub type_soa : ℕ
type_soa = 6

abbrev pub type_aaaa : ℕ
type_aaaa = 28

-- What `orderedRRs` compares.
abbrev pub Key : Type 0
Key = Text × ℕ × Text

unfoldable pub key_less : Key → Key → Bool
key_less (n, t, s) (n', t', s') =
    if not (text_eq n n') then less n n' else if not (t == t') then ltb t t' else less s s'

module _ (lib : DnsLib) where
  open lib use {RR, name, rrtype, to_string}

  abbrev pub key : RR → Key
  key rr = (name rr, rrtype rr, to_string rr)

  unfoldable pub ordered_rrs : List RR → List RR
  ordered_rrs rrs = sort (λ a b. key_less (key a) (key b)) rrs

  unfoldable pub has_string : Text → List RR → Bool
  has_string s [] = false
  has_string s (rr ∷ rrs) = text_eq (to_string rr) s || has_string s rrs

  unfoldable pub ensure_rr : List RR → RR → List RR
  ensure_rr rrs wanted = if has_string (to_string wanted) rrs then rrs else rrs ++ (wanted ∷ [])

  unfoldable pub remove_rr_on_name_and_type_and_data : List RR → Text → ℕ → (RR → Bool) → List RR
  remove_rr_on_name_and_type_and_data [] n t match = []
  remove_rr_on_name_and_type_and_data (rr ∷ rrs) n t match =
      let rest = remove_rr_on_name_and_type_and_data rrs n t match in
      if text_eq (name rr) n && ((rrtype rr == t) && match rr) then rest else rr ∷ rest

  unfoldable pub remove_rr_on_name_and_type : List RR → Text → ℕ → List RR
  remove_rr_on_name_and_type [] n t = []
  remove_rr_on_name_and_type (rr ∷ rrs) n t =
      let rest = remove_rr_on_name_and_type rrs n t in
      if text_eq (name rr) n && (rrtype rr == t) then rest else rr ∷ rest
