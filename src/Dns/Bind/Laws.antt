-- ===== src/Dns/Bind/Laws.antt =====
-- What the operations of internal/dns/bind/bind.go make of the records of a zone.
use ngm.Base.{
  ℕ, ◌≡◌, refl, ap, sym, subst, ◌∙◌, Bool, true, false, ◌&&◌, ◌||◌, leb, if◌then◌else◌, List, [],
  ◌∷◌, ◌==◌, Option, none, some, Result, ok, err,
}
use ngm.Text.{Text, text, is_empty}
use ngm.Dns.{SiteDnsInput}
use ngm.Dns.Records.{DnsLib, ensure_rr, remove_rr_on_name_and_type, type_a, type_aaaa}
use ngm.Dns.Records.Laws.{is_at, remove-ensure_rr, remove_comm}
use ngm.Dns.Bind.{
  ensure_parsed, ensure_address, ensure_next, ensure_addresses, without_addresses, address_line,
}

-- A byte of a plain name: a lower-case letter, a digit, a dash, an underscore or a dot.
abbrev pub is_name_byte : ℕ → Bool
is_name_byte c =
    (leb b'a' c && leb c b'z')
    || ((leb b'0' c && leb c b'9') || ((c == b'-') || ((c == b'_') || (c == b'.'))))

-- A plain name that is fully qualified: it ends in a dot, as `dns.Fqdn` leaves it.
unfoldable pub is_absolute : Text → Bool
is_absolute [] = false
is_absolute (c ∷ s) = is_name_byte c && (if is_empty s then c == b'.' else is_absolute s)

module _ (lib : DnsLib) where
  open lib use {RR, new_rr}

  -- Where `dns.NewRR` accepts the line of an address with a plain name that is fully qualified, it makes a
  -- record with this name and type.
  pub record ParsesAddresses : Type 0 where
    pub of_a :
        (n : Text)
        → is_absolute n ≡ true
        → (ttl : ℕ) (ip : Text) (rr : RR) → new_rr (address_line lib n ttl (text "A") ip) ≡ ok rr
        → is_at lib n type_a rr ≡ true
    pub of_aaaa :
        (n : Text)
        → is_absolute n ≡ true
        → (ttl : ℕ) (ip : Text) (rr : RR) → new_rr (address_line lib n ttl (text "AAAA") ip) ≡ ok rr
        → is_at lib n type_aaaa rr ≡ true

  removed_parsed :
      (n : Text) (t : ℕ) (rrs rrs' : List RR) (r : Result RR)
      → ((rr : RR) → r ≡ ok rr → is_at lib n t rr ≡ true)
      → ensure_parsed lib rrs r ≡ some rrs'
      → remove_rr_on_name_and_type lib rrs' n t ≡ remove_rr_on_name_and_type lib rrs n t
  unfolding ensure_parsed
  removed_parsed n t rrs rrs' (err e) k h = cc
  removed_parsed n t rrs rrs' (ok rr) k h =
      let same : ensure_rr lib rrs rr ≡ rrs' = cc in
      subst
        (λ (l : List RR).
          remove_rr_on_name_and_type lib l n t ≡ remove_rr_on_name_and_type lib rrs n t)
        same (remove-ensure_rr lib rrs rr n t (k rr refl))

  removed_address :
      (n : Text) (ttl t : ℕ) (kind ip : Text) (rrs rrs' : List RR)
      → ((ip' : Text) (rr : RR)
          → new_rr (address_line lib n ttl kind ip') ≡ ok rr
          → is_at lib n t rr ≡ true)
      → ensure_address lib n ttl kind ip rrs ≡ some rrs'
      → remove_rr_on_name_and_type lib rrs' n t ≡ remove_rr_on_name_and_type lib rrs n t
  unfolding ensure_address
  removed_address n ttl t kind [] rrs rrs' k h =
      let same : rrs ≡ rrs' = cc in ap (λ l. remove_rr_on_name_and_type lib l n t) (sym same)
  removed_address n ttl t kind (c ∷ ip) rrs rrs' k h =
      removed_parsed n t rrs rrs' (new_rr (address_line lib n ttl kind (c ∷ ip))) (k (c ∷ ip)) h

  module _ (laws : ParsesAddresses) where
    without_addresses-ensure_next :
        (n : Text) (plain : is_absolute n ≡ true) (ttl : ℕ) (ip : Text) (rrs : List RR)
        (r : Option (List RR))
        → ((mid : List RR)
            → r ≡ some mid
            → remove_rr_on_name_and_type lib mid n type_a
              ≡ remove_rr_on_name_and_type lib rrs n type_a)
        → (out : List RR) → ensure_next lib n ttl (text "AAAA") ip r ≡ some out
        → without_addresses lib n out ≡ without_addresses lib n rrs
    unfolding ensure_next without_addresses
    without_addresses-ensure_next n plain ttl ip rrs none k out h = cc
    without_addresses-ensure_next n plain ttl ip rrs (some mid) k out h =
        remove_comm lib out n n type_a type_aaaa
        ∙ ap (λ l. remove_rr_on_name_and_type lib l n type_a)
            (removed_address n ttl type_aaaa (text "AAAA") ip mid out (laws.of_aaaa n plain ttl) h)
        ∙ remove_comm lib mid n n type_aaaa type_a
        ∙ ap (λ l. remove_rr_on_name_and_type lib l n type_aaaa) (k mid refl)

    -- Removing the addresses of a name, as `DeleteSubdomainSite` does, undoes what
    -- `EnsureSubdomainSite` added, whatever the zone held, for a plain name that is fully qualified, as
    -- the code passes it, and a library that reads the lines of such addresses.
    pub without_addresses-ensure_addresses :
        (n : Text) (plain : is_absolute n ≡ true) (ttl : ℕ) (in' : SiteDnsInput) (rrs out : List RR)
        → ensure_addresses lib n ttl in' rrs ≡ some out
        → without_addresses lib n out ≡ without_addresses lib n rrs
    unfolding ensure_addresses
    without_addresses-ensure_addresses n plain ttl in' rrs out h =
        without_addresses-ensure_next n plain ttl in'.default_ipv6 rrs
          (ensure_address lib n ttl (text "A") in'.default_ipv4 rrs)
          (λ mid e.
            removed_address n ttl type_a (text "A") in'.default_ipv4 rrs mid (laws.of_a n plain ttl)
              e)
          out h
