-- ===== src/Dns/Bind/Soa.antt =====
-- `ensureRootRecords` of internal/dns/bind/bind.go leaves one SOA record.
use ngm.Base.{
  Bool, Bool-cases, inl, inr, not, ◌&&◌, ℕ, ◌+◌, ◌≡◌, refl, ap, sym, ◌∙◌, true, false, List, [],
  ◌∷◌, ◌++◌, ◌==◌, arith, Option, none, some, Result, ok, err, if◌then◌else◌, All,
}
use ngm.Text.{Text, text, text_eq, is_empty}
use ngm.Text.Laws.{text_eq_refl, text_eq_iff}
use ngm.Config.{DnsTemplateConfig, DnsRecordTemplate}
use ngm.Dns.{SiteDnsInput}
use ngm.Dns.Records.{
  DnsLib, ensure_rr, has_string, remove_rr_on_name_and_type_and_data, type_a, type_aaaa, type_soa,
  type_ns,
}
use ngm.Dns.Records.Laws.{is_at}
use ngm.Dns.Zone.{ZoneModel}
use ngm.Dns.Entry.{count_at}
use ngm.Dns.Bind.{
  ensure_parsed, ensure_address, ensure_next, ensure_addresses, ensure_nameservers,
  ensure_if_parsed, ensure_records, root_base, root_rest, soa_of, ensure_root_records, address_line,
  record_line,
}
use ngm.Dns.Bind.Laws.{ParsesAddresses, is_absolute}

-- No backslash stands in the name.
unfoldable pub is_unescaped : Text → Bool
is_unescaped [] = true
is_unescaped (c ∷ s) = not (c == 92) && is_unescaped s

absolute_unescaped : (n : Text) → is_absolute n ≡ true → is_unescaped n ≡ true
unfolding is_absolute is_unescaped is_empty
absolute_unescaped [] h = refl
absolute_unescaped (c ∷ []) h = ground arith
absolute_unescaped (c ∷ d ∷ s) h = ground (arith, absolute_unescaped (d ∷ s))

module _ (lib : DnsLib) where
  open lib use {RR, name, rrtype, to_string, new_rr, fqdn}

  -- The name of the record has no escape.
  abbrev pub IsUnescaped : RR → Type 0
  IsUnescaped rr = is_unescaped (name rr) ≡ true

  -- What is relied on of the records that the program makes by literals, and of their text: it shows
  -- the type, and the name where this has no escape.
  pub record Literals : Type 0 where
    pub soa_name :
        (n : Text)
        → is_absolute n ≡ true
        → (ttl : ℕ) (m r : Text) (a b c d e : ℕ) → name (lib.soa n ttl m r a b c d e) ≡ n
    pub soa_type :
        (n : Text) (ttl : ℕ) (m r : Text) (a b c d e : ℕ)
        → rrtype (lib.soa n ttl m r a b c d e) ≡ type_soa
    pub ns_type : (n : Text) (ttl : ℕ) (s : Text) → rrtype (lib.ns n ttl s) ≡ type_ns
    pub shows :
        (a b : RR)
        → IsUnescaped a
        → IsUnescaped b
        → to_string a ≡ to_string b
        → (name a ≡ name b) × (rrtype a ≡ rrtype b)

  removed-IsUnescaped :
      (n : Text) (t : ℕ) (rrs : List RR)
      → All IsUnescaped rrs
      → All IsUnescaped (remove_rr_on_name_and_type_and_data lib rrs n t (λ rr. true))
  unfolding remove_rr_on_name_and_type_and_data
  removed-IsUnescaped n t [] esc = tt
  removed-IsUnescaped n t (rr ∷ rrs) esc =
      elim (Bool-cases (text_eq (name rr) n && ((rrtype rr == t) && true))) [
        | inl e ↦ rw e (removed-IsUnescaped n t rrs esc.1)
        | inr e ↦ rw e (esc.0, removed-IsUnescaped n t rrs esc.1)
      ]

  count_at-append :
      (n : Text) (t : ℕ) (rrs : List RR) (rr : RR)
      → count_at lib n t (rrs ++ (rr ∷ []))
        ≡ count_at lib n t rrs + (if is_at lib n t rr then 1 else 0)
  unfolding count_at is_at
  count_at-append n t [] rr = ground arith
  count_at-append n t (x ∷ rrs) rr = omega (arith, count_at-append n t rrs rr)

  count_at-ensure_other :
      (n : Text) (t : ℕ) (rrs : List RR) (rr : RR)
      → is_at lib n t rr ≡ false
      → count_at lib n t (ensure_rr lib rrs rr) ≡ count_at lib n t rrs
  unfolding ensure_rr
  count_at-ensure_other n t rrs rr h = ground (arith, count_at-append n t rrs rr)

  -- A record of another type is not at a name with the type.
  not_at :
      (n : Text) (t u : ℕ) (rr : RR) → rrtype rr ≡ u → (u == t) ≡ false → is_at lib n t rr ≡ false
  unfolding is_at
  not_at n t u rr h k = ground arith

  count_at-removed :
      (n : Text) (t : ℕ) (rrs : List RR)
      → count_at lib n t (remove_rr_on_name_and_type_and_data lib rrs n t (λ rr. true)) ≡ 0
  unfolding count_at remove_rr_on_name_and_type_and_data
  count_at-removed n t [] = refl
  count_at-removed n t (rr ∷ rrs) = ground (arith, count_at-removed n t rrs)

  module _ (lits : Literals) where
    has_string-count :
        (n : Text) (t : ℕ) (rr : RR) (rrs : List RR)
        → IsUnescaped rr
        → All IsUnescaped rrs
        → is_at lib n t rr ≡ true
        → count_at lib n t rrs ≡ 0
        → has_string lib (to_string rr) rrs ≡ false
    unfolding has_string count_at is_at
    has_string-count n t rr [] own esc h k = refl
    has_string-count n t rr (x ∷ rrs) own esc h k = ground (
      arith,
      has_string-count n t rr rrs own esc.1 h,
      text_eq_iff (to_string x) (to_string rr),
      lits.shows x rr esc.0 own,
      text_eq_iff (name rr) n,
      text_eq_iff (name x) n,
    )

    count_at-ensure_new :
        (n : Text) (t : ℕ) (rrs : List RR) (rr : RR)
        → IsUnescaped rr
        → All IsUnescaped rrs
        → is_at lib n t rr ≡ true
        → count_at lib n t rrs ≡ 0
        → count_at lib n t (ensure_rr lib rrs rr) ≡ 1
    unfolding ensure_rr
    count_at-ensure_new n t rrs rr own esc h k =
        ground (arith, count_at-append n t rrs rr, has_string-count n t rr rrs own esc h k)

    count_at-ensure_nameservers :
        (n origin : Text) (ttl : ℕ) (servers : List Text) (rrs : List RR)
        → count_at lib n type_soa (ensure_nameservers lib origin ttl servers rrs)
          ≡ count_at lib n type_soa rrs
    unfolding ensure_nameservers
    count_at-ensure_nameservers n origin ttl [] rrs = refl
    count_at-ensure_nameservers n origin ttl (s ∷ servers) rrs =
        count_at-ensure_nameservers n origin ttl servers (ensure_rr lib rrs (lib.ns origin ttl s))
        ∙ count_at-ensure_other n type_soa rrs (lib.ns origin ttl s)
            (not_at n type_soa type_ns (lib.ns origin ttl s) (lits.ns_type origin ttl s) refl)

    soa-is_at :
        (n : Text) (plain : is_absolute n ≡ true) (ttl serial : ℕ) (tpl : DnsTemplateConfig)
        → is_at lib n type_soa (soa_of lib n ttl serial tpl.soa) ≡ true
    unfolding is_at soa_of
    soa-is_at n plain ttl serial tpl = simp (lits.soa_name n plain, lits.soa_type, text_eq_refl n)

    count_at-root_base :
        (n : Text) (plain : is_absolute n ≡ true) (ttl serial : ℕ) (tpl : DnsTemplateConfig)
        (rrs : List RR)
        → All IsUnescaped rrs
        → count_at lib n type_soa (root_base lib n ttl serial tpl rrs) ≡ 1
    unfolding root_base soa_of
    count_at-root_base n plain ttl serial tpl rrs esc =
        count_at-ensure_nameservers n n ttl tpl.nameservers _
        ∙ count_at-ensure_new n type_soa _ (soa_of lib n ttl serial tpl.soa)
            (ap is_unescaped (lits.soa_name n plain _ _ _ _ _ _ _ _) ∙ absolute_unescaped n plain)
            (removed-IsUnescaped n type_soa rrs esc) (soa-is_at n plain ttl serial tpl)
            (count_at-removed n type_soa rrs)

  -- No record of the template parses to a SOA record at the name.
  abbrev pub MakesNoSoa : Text → Text → ℕ → DnsRecordTemplate → Type 0
  MakesNoSoa zone n ttl rec =
      (rr : RR) → new_rr (record_line lib zone n ttl rec) ≡ ok rr → is_at lib n type_soa rr ≡ false

  count_at-if_parsed :
      (n : Text) (rrs : List RR) (r : Result RR)
      → ((rr : RR) → r ≡ ok rr → is_at lib n type_soa rr ≡ false)
      → count_at lib n type_soa (ensure_if_parsed lib rrs r) ≡ count_at lib n type_soa rrs
  unfolding ensure_if_parsed
  count_at-if_parsed n rrs (err e) k = refl
  count_at-if_parsed n rrs (ok rr) k = count_at-ensure_other n type_soa rrs rr (k rr refl)

  count_at-ensure_records :
      (zone n : Text) (ttl : ℕ) (recs : List DnsRecordTemplate) (rrs : List RR)
      → All (MakesNoSoa zone n ttl) recs
      → count_at lib n type_soa (ensure_records lib zone n ttl recs rrs)
        ≡ count_at lib n type_soa rrs
  unfolding ensure_records
  count_at-ensure_records zone n ttl [] rrs k = refl
  count_at-ensure_records zone n ttl (rec ∷ recs) rrs k =
      count_at-ensure_records zone n ttl recs _ k.1
      ∙ count_at-if_parsed n rrs (new_rr (record_line lib zone n ttl rec)) k.0

  count_at-parsed :
      (n : Text) (rrs out : List RR) (r : Result RR)
      → ((rr : RR) → r ≡ ok rr → is_at lib n type_soa rr ≡ false)
      → ensure_parsed lib rrs r ≡ some out
      → count_at lib n type_soa out ≡ count_at lib n type_soa rrs
  unfolding ensure_parsed
  count_at-parsed n rrs out (err e) k h = cc
  count_at-parsed n rrs out (ok rr) k h =
      let same : ensure_rr lib rrs rr ≡ out = cc in
      ap (count_at lib n type_soa) (sym same) ∙ count_at-ensure_other n type_soa rrs rr (k rr refl)

  other_type :
      (n : Text) (t : ℕ) (rr : RR)
      → (t == type_soa) ≡ false
      → is_at lib n t rr ≡ true
      → is_at lib n type_soa rr ≡ false
  unfolding is_at
  other_type n t rr h k = ground arith

  count_at-address :
      (n : Text) (ttl t : ℕ) (kind ip : Text) (rrs out : List RR)
      → (t == type_soa) ≡ false
      → ((ip' : Text) (rr : RR)
          → new_rr (address_line lib n ttl kind ip') ≡ ok rr
          → is_at lib n t rr ≡ true)
      → ensure_address lib n ttl kind ip rrs ≡ some out
      → count_at lib n type_soa out ≡ count_at lib n type_soa rrs
  unfolding ensure_address
  count_at-address n ttl t kind [] rrs out d k h =
      let same : rrs ≡ out = cc in ap (count_at lib n type_soa) (sym same)
  count_at-address n ttl t kind (c ∷ ip) rrs out d k h =
      count_at-parsed n rrs out (new_rr (address_line lib n ttl kind (c ∷ ip)))
        (λ rr e. other_type n t rr d (k (c ∷ ip) rr e)) h

  module _ (laws : ParsesAddresses lib) (lits : Literals) where
    count_at-next :
        (n : Text) (plain : is_absolute n ≡ true) (ttl : ℕ) (ip : Text) (rrs out : List RR)
        (r : Option (List RR))
        → ((mid : List RR)
            → r ≡ some mid
            → count_at lib n type_soa mid ≡ count_at lib n type_soa rrs)
        → ensure_next lib n ttl (text "AAAA") ip r ≡ some out
        → count_at lib n type_soa out ≡ count_at lib n type_soa rrs
    unfolding ensure_next
    count_at-next n plain ttl ip rrs out none k h = cc
    count_at-next n plain ttl ip rrs out (some mid) k h =
        count_at-address n ttl type_aaaa (text "AAAA") ip mid out refl (laws.of_aaaa n plain ttl) h
        ∙ k mid refl

    count_at-addresses :
        (n : Text) (plain : is_absolute n ≡ true) (ttl : ℕ) (in' : SiteDnsInput) (rrs out : List RR)
        → ensure_addresses lib n ttl in' rrs ≡ some out
        → count_at lib n type_soa out ≡ count_at lib n type_soa rrs
    unfolding ensure_addresses
    count_at-addresses n plain ttl in' rrs out h =
        count_at-next n plain ttl in'.default_ipv6 rrs out
          (ensure_address lib n ttl (text "A") in'.default_ipv4 rrs)
          (λ mid e.
            count_at-address n ttl type_a (text "A") in'.default_ipv4 rrs mid refl
              (laws.of_a n plain ttl) e)
          h

    count_at-root_rest :
        (zone n : Text) (ttl : ℕ) (tpl : DnsTemplateConfig) (rrs out : List RR)
        (r : Option (List RR))
        → All (MakesNoSoa zone n ttl) tpl.records
        → ((mid : List RR)
            → r ≡ some mid
            → count_at lib n type_soa mid ≡ count_at lib n type_soa rrs)
        → root_rest lib zone n ttl tpl r ≡ some out
        → count_at lib n type_soa out ≡ count_at lib n type_soa rrs
    unfolding root_rest
    count_at-root_rest zone n ttl tpl rrs out none no_soa k h = cc
    count_at-root_rest zone n ttl tpl rrs out (some mid) no_soa k h =
        let same : ensure_records lib zone n ttl tpl.records mid ≡ out = cc in
        ap (count_at lib n type_soa) (sym same)
        ∙ count_at-ensure_records zone n ttl tpl.records mid no_soa
        ∙ k mid refl

    -- Whatever records the zone held, `ensureRootRecords` leaves one SOA record at its origin if it does
    -- not panic, where the origin is a plain name that is fully qualified, no name in the zone has an
    -- escape, and no record of the template parses to a SOA record at the origin.
    pub count_at-ensure_root_records :
        (z : ZoneModel lib) (zone : Text) (tpl : DnsTemplateConfig) (in' : SiteDnsInput)
        (serial : ℕ) (out : List RR)
        → is_absolute (fqdn zone) ≡ true
        → All IsUnescaped z.rrs
        → All (MakesNoSoa zone (fqdn zone) z.ttl) tpl.records
        → ensure_root_records lib z zone tpl in' serial ≡ some out
        → count_at lib (fqdn zone) type_soa out ≡ 1
    unfolding ensure_root_records
    count_at-ensure_root_records z zone tpl in' serial out plain esc no_soa h =
        let base : List RR = root_base lib (fqdn zone) z.ttl serial tpl z.rrs in
        count_at-root_rest zone (fqdn zone) z.ttl tpl base out
          (ensure_addresses lib (fqdn zone) z.ttl in' base) no_soa
          (λ mid e. count_at-addresses (fqdn zone) plain z.ttl in' base mid e) h
        ∙ count_at-root_base lits (fqdn zone) plain z.ttl serial tpl z.rrs esc
