-- ===== src/Scenario/Zones.antt =====
-- A concrete DNS library, whose record is a line with its type in front, and zones.
use ngm.Base.{
  Bool, not, ◌&&◌, ℕ, zero, suc, ◌+◌, ◌%◌, ◌/◌, ◌≡◌, refl, ap, sym, ◌∙◌, true, [], ◌∷◌, ◌++◌,
  Option, none, some, Result, ok, err, errorf, ◌==◌, ltb, arith, if◌then◌else◌, return, subst,
  Bool-cases, inl, inr,
}
use ngm.Text.{is_empty, Text, text, text_eq, has_suffix, split}
use ngm.Text.Laws.{text_eq_refl}
use ngm.Text.Decimal.{decimal, digits}
use ngm.Os.Paths.{other}
use ngm.Os.{World}
use ngm.Config.{DnsConfig, DnsTemplateConfig}
use ngm.Dns.{SiteDnsInput}
use ngm.Dns.Records.{DnsLib, type_a, type_aaaa, type_soa, type_ns}
use ngm.Dns.Records.Laws.{is_at}
use ngm.Dns.Zone.{BindHost}
use ngm.Dns.Bind.{address_line}
use ngm.Dns.Bind.Laws.{ParsesAddresses, is_absolute}
use ngm.Dns.Bind.Soa.{Literals}
use ngm.Scenario.{broken_nginx}

-- The text up to the first blank, and what follows it.
unfoldable pub first_word : Text → Text
first_word [] = []
first_word (c ∷ s) = if c == b' ' then [] else c ∷ first_word s

unfoldable pub after_word : Text → Text
after_word [] = []
after_word (c ∷ s) = let rest = after_word s in if c == b' ' then s else rest

unfoldable pub name_of : Text → Text
name_of [] = []
name_of (t ∷ line) = first_word line

unfoldable pub type_of : Text → ℕ
type_of [] = 0
type_of (t ∷ line) = t

abbrev pub kind_of : Text → Text
kind_of line = first_word (after_word (after_word (after_word line)))

unfoldable pub typed : Text → Text → Result Text
typed kind line =
    if text_eq kind (text "A")
    then ok (type_a ∷ line)
    else if text_eq kind (text "AAAA")
    then ok (type_aaaa ∷ line)
    else err (errorf (text "bad type"))

abbrev pub lib : DnsLib
lib = record {
  RR = Text;
  name = name_of;
  rrtype = type_of;
  ttl = λ rr. 0;
  to_string = λ rr. rr;
  fqdn = λ s. if has_suffix s (text ".") then s else s ++ text ".";
  new_rr = λ line. typed (kind_of line) line;
  soa = λ n ttl m r a b c d e. type_soa ∷ (n ++ (b' ' ∷ (m ++ (b' ' ∷ decimal a))));
  ns = λ n ttl s. type_ns ∷ (n ++ (b' ' ∷ s));
  parse_zone = λ b origin. ok (split b'\n' b);
}

-- No blank stands in the text.
is_word : Text → Bool
is_word [] = true
is_word (c ∷ s) = not (c == b' ') && is_word s

absolute-is_word : (n : Text) → is_absolute n ≡ true → is_word n ≡ true
unfolding is_absolute is_word is_empty
absolute-is_word [] h = refl
absolute-is_word (c ∷ []) h = ground arith
absolute-is_word (c ∷ d ∷ s) h = ground (arith, absolute-is_word (d ∷ s))

first_word_lem : (n s : Text) → is_word n ≡ true → first_word (n ++ (b' ' ∷ s)) ≡ n
unfolding first_word is_word
first_word_lem [] s h = refl
first_word_lem (c ∷ n) s h = ground (arith, first_word_lem n s)

after_word_lem : (n s : Text) → is_word n ≡ true → after_word (n ++ (b' ' ∷ s)) ≡ s
unfolding after_word is_word
after_word_lem [] s h = refl
after_word_lem (c ∷ n) s h = ground (arith, after_word_lem n s)

is_word-digit : (k : ℕ) (s : Text) → is_word s ≡ true → is_word ((b'0' + k) ∷ s) ≡ true
unfolding is_word
is_word-digit k s h = ground arith

is_word-digits : (fuel n : ℕ) (s : Text) → is_word s ≡ true → is_word (digits fuel n s) ≡ true
unfolding digits
is_word-digits zero n s h = h
is_word-digits (suc fuel) n s h =
    let here = is_word-digit (n % 10) s h in
    elim (Bool-cases (ltb n 10)) [
      | inl e ↦ rw e here
      | inr e ↦ rw e (is_word-digits fuel (n / 10) ((b'0' + n % 10) ∷ s) here)
    ]

is_word-decimal : (n : ℕ) → is_word (decimal n) ≡ true
unfolding decimal is_word
is_word-decimal n = is_word-digits (suc n) n [] refl

kind_of_lem :
    (n : Text) (ttl : ℕ) (kind ip : Text)
    → is_word n ≡ true
    → is_word kind ≡ true
    → kind_of (address_line lib n ttl kind ip) ≡ kind
unfolding address_line after_word first_word decimal text
kind_of_lem n ttl kind ip h k =
    rw
      (
        after_word_lem n (decimal ttl ++ (text " IN " ++ (kind ++ (b' ' ∷ ip)))) h,
        after_word_lem (decimal ttl) (text "IN " ++ (kind ++ (b' ' ∷ ip))) (is_word-decimal ttl),
      )
      (first_word_lem kind ip k)

at_line : (t : ℕ) (n s : Text) → is_word n ≡ true → is_at lib n t (t ∷ (n ++ (b' ' ∷ s))) ≡ true
unfolding is_at name_of type_of
at_line t n s h = rw (first_word_lem n s h, text_eq_refl n) (ground arith)

typed_a : (line rr : Text) → typed (text "A") line ≡ ok rr → type_a ∷ line ≡ rr
unfolding typed text text_eq
typed_a line rr e = cc

typed_aaaa : (line rr : Text) → typed (text "AAAA") line ≡ ok rr → type_aaaa ∷ line ≡ rr
unfolding typed text text_eq
typed_aaaa line rr e = cc

-- The library reads the line of an address.
pub lib-ParsesAddresses : ParsesAddresses lib
unfolding is_word text address_line
lib-ParsesAddresses = record { of_a = of_a; of_aaaa = of_aaaa }
  where
    of_a :
        (n : Text)
        → is_absolute n ≡ true
        → (ttl : ℕ) (ip : Text) (rr : Text)
        → lib.new_rr (address_line lib n ttl (text "A") ip) ≡ ok rr
        → is_at lib n type_a rr ≡ true
    of_a n h ttl ip rr e =
        let line : Text = address_line lib n ttl (text "A") ip in
        subst (λ (r : Text). is_at lib n type_a r ≡ true)
          (typed_a line rr (
            sym
              (ap (λ k. typed k line) (kind_of_lem n ttl (text "A") ip (absolute-is_word n h) refl))
            ∙ e))
          (at_line type_a n (decimal ttl ++ (text " IN " ++ (text "A" ++ (b' ' ∷ ip))))
            (absolute-is_word n h))

    of_aaaa :
        (n : Text)
        → is_absolute n ≡ true
        → (ttl : ℕ) (ip : Text) (rr : Text)
        → lib.new_rr (address_line lib n ttl (text "AAAA") ip) ≡ ok rr
        → is_at lib n type_aaaa rr ≡ true
    of_aaaa n h ttl ip rr e =
        let line : Text = address_line lib n ttl (text "AAAA") ip in
        subst (λ (r : Text). is_at lib n type_aaaa r ≡ true)
          (typed_aaaa line rr (
            sym (
              ap (λ k. typed k line)
                (kind_of_lem n ttl (text "AAAA") ip (absolute-is_word n h) refl))
            ∙ e))
          (at_line type_aaaa n (decimal ttl ++ (text " IN " ++ (text "AAAA" ++ (b' ' ∷ ip))))
            (absolute-is_word n h))

pub lib-Literals : Literals lib
unfolding name_of type_of
lib-Literals = record {
  soa_name =
      λ n h ttl m r a b c d e. first_word_lem n (m ++ (b' ' ∷ decimal a)) (absolute-is_word n h);
  soa_type = λ n ttl m r a b c d e. refl;
  ns_type = λ n ttl s. refl;
  shows = λ a b p q e. (ap name_of e, ap type_of e);
}

abbrev pub zone : Text
zone = b'a' ∷ b'.' ∷ b'g' ∷ b'r' ∷ []

abbrev pub ip : Text
ip = b'1' ∷ b'.' ∷ b'2' ∷ b'.' ∷ b'3' ∷ b'.' ∷ b'4' ∷ []

abbrev pub ip6 : Text
ip6 = b':' ∷ b':' ∷ b'1' ∷ []

-- A subdomain of the zone.
abbrev pub sub_input : SiteDnsInput
sub_input = record {
  fqdn = b'b' ∷ b'.' ∷ zone;
  parent_domain = zone;
  template = [];
  default_ipv4 = ip;
  default_ipv6 = ip6;
  site_kind = text "subdomain";
}

abbrev pub template : DnsTemplateConfig
template = record {
  ttl = 60;
  soa = record {
    mname = b'n' ∷ [];
    rname = b'r' ∷ [];
    refresh = 1;
    retry = 2;
    expire = 3;
    minimum = 4;
  };
  nameservers = (b'n' ∷ []) ∷ [];
  records = [];
}

abbrev pub dns_config : DnsConfig
dns_config = record {
  enabled = true;
  provider = text "bind";
  default_template = [];
  default_ipv4 = ip;
  default_ipv6 = ip6;
  bind = record {
    named_conf_include = b'/' ∷ b'i' ∷ [];
    zones_dir = b'/' ∷ b'z' ∷ [];
    rndc_bin = [];
    checkconf_bin = [];
    checkzone_bin = [];
    named_conf_path = [];
    zone_file_suffix = b'.' ∷ b'z' ∷ [];
  };
  templates = ([], template) ∷ [];
}

abbrev pub bind : BindHost
bind = record {
  env = broken_nginx;
  cfg = dns_config;
  read_dir = λ d. return [];
  unix_time = λ n. n;
}

-- Each zone file has one record, the address of the zone.
abbrev pub zone_files : World
zone_files = record {
  files = λ p. elim p as (λ _. Option Text) [
    | other q ↦ some (type_a ∷ (zone ++ text ". 60 IN A 9"))
    | _ ↦ none
  ];
  clock = 0;
}
