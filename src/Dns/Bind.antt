-- ===== src/Dns/Bind.antt =====
-- internal/dns/bind/bind.go: the operations of the provider. `ensureRR` dereferences the record that
-- `dns.NewRR` returned; where it returned none because of an address that does not parse, the program
-- panics, which is the end `panicked`.
pub mod Laws
pub mod Soa
pub mod Frame
use ngm.Base.{
  ℕ, ◌+◌, ◌%◌, ◌^◌, Bool, true, false, ◌||◌, List, [], ◌∷◌, ◌++◌, Option, none, some, Error, Result,
  ok, err, if◌then◌else◌, errorf, wrap, wrapping, return, fail, try, ◌>>=◌, ◌>>◌,
}
use ngm.Base.Dict.{lookup}
use ngm.Text.{Text, text, text_eq, is_empty, to_lower, to_upper, trim_space, trim_suffix}
use ngm.Text.Decimal.{decimal}
use ngm.Os.Paths.{FilePath, other}
use ngm.Os.{Env, Io, World, CmdResult, tick, remove, stat}
use ngm.Config.{DnsTemplateConfig, DnsRecordTemplate, DnsSoaConfig}
use ngm.Dns.{SiteDnsInput, DnsEntry, validate, kind_root, kind_subdomain}
use ngm.Dns.Records.{
  DnsLib, ensure_rr, remove_rr_on_name_and_type, remove_rr_on_name_and_type_and_data, type_a,
  type_ns, type_soa, type_aaaa,
}
use ngm.Dns.Zone.{BindHost, ZoneModel, nonzero_or, zone_path, load_zone, write_zone}
use ngm.Dns.Include.{write_include_file}

pub data Exit : Type 0 where
  done : Exit
  panicked : Exit

unfoldable pub normalize_domain : Text → Text
normalize_domain v = trim_suffix (to_lower (trim_space v)) (text ".")

unfoldable pub lift : {A : Type 0} → Result A → Io A
lift (ok a) = return a
lift (err e) = fail e

module _ (lib : DnsLib) where
  open lib use {RR, name, rrtype, fqdn, new_rr, soa, ns}

  -- `rr, _ := dns.NewRR(...)` and `ensureRR`: none is the panic.
  unfoldable pub ensure_parsed : List RR → Result RR → Option (List RR)
  ensure_parsed rrs (ok rr) = some (ensure_rr lib rrs rr)
  ensure_parsed rrs (err e) = none

  unfoldable pub address_line : Text → ℕ → Text → Text → Text
  address_line name ttl kind ip =
      name ++ (b' ' ∷ (decimal ttl ++ (text " IN " ++ (kind ++ (b' ' ∷ ip)))))

  -- `if ip != "" { ... }`
  unfoldable pub ensure_address : Text → ℕ → Text → Text → List RR → Option (List RR)
  ensure_address name ttl kind [] rrs = some rrs
  ensure_address name ttl kind (c ∷ ip) rrs =
      ensure_parsed rrs (new_rr (address_line name ttl kind (c ∷ ip)))

  unfoldable pub ensure_next : Text → ℕ → Text → Text → Option (List RR) → Option (List RR)
  ensure_next name ttl kind ip none = none
  ensure_next name ttl kind ip (some rrs) = ensure_address name ttl kind ip rrs

  -- The A and the AAAA record of a name.
  unfoldable pub ensure_addresses : Text → ℕ → SiteDnsInput → List RR → Option (List RR)
  ensure_addresses name ttl in' rrs =
      ensure_next name ttl (text "AAAA") in'.default_ipv6
        (ensure_address name ttl (text "A") in'.default_ipv4 rrs)

  unfoldable pub ensure_nameservers : Text → ℕ → List Text → List RR → List RR
  ensure_nameservers origin ttl [] rrs = rrs
  ensure_nameservers origin ttl (n ∷ ns') rrs =
      ensure_nameservers origin ttl ns' (ensure_rr lib rrs (ns origin ttl n))

  unfoldable pub record_name : Text → Text → Text → Text
  record_name zone origin n =
      if text_eq n (text "@") || is_empty n then origin else fqdn (n ++ (b'.' ∷ zone))

  unfoldable pub record_line : Text → Text → ℕ → DnsRecordTemplate → Text
  record_line zone origin ttl rec =
      address_line (record_name zone origin rec.name) (nonzero_or rec.ttl ttl) (to_upper rec.kind)
        rec.value

  unfoldable pub ensure_if_parsed : List RR → Result RR → List RR
  ensure_if_parsed rrs (ok rr) = ensure_rr lib rrs rr
  ensure_if_parsed rrs (err e) = rrs

  unfoldable pub ensure_records : Text → Text → ℕ → List DnsRecordTemplate → List RR → List RR
  ensure_records zone origin ttl [] rrs = rrs
  ensure_records zone origin ttl (rec ∷ recs) rrs =
      ensure_records zone origin ttl recs
        (ensure_if_parsed rrs (new_rr (record_line zone origin ttl rec)))

  unfoldable pub soa_of : Text → ℕ → ℕ → DnsSoaConfig → RR
  soa_of origin ttl serial c =
      soa origin ttl c.mname c.rname serial c.refresh c.retry c.expire c.minimum

  -- The records of `ensureRootRecords` up to the addresses.
  unfoldable pub root_base : Text → ℕ → ℕ → DnsTemplateConfig → List RR → List RR
  root_base origin ttl serial tpl rrs = ensure_nameservers origin ttl tpl.nameservers (
      ensure_rr lib (remove_rr_on_name_and_type_and_data lib rrs origin type_soa (λ rr. true))
        (soa_of origin ttl serial tpl.soa))

  unfoldable pub root_rest :
      Text → Text → ℕ → DnsTemplateConfig → Option (List RR) → Option (List RR)
  root_rest zone origin ttl tpl none = none
  root_rest zone origin ttl tpl (some rrs) = some (ensure_records zone origin ttl tpl.records rrs)

  unfoldable pub ensure_root_records :
      ZoneModel lib → Text → DnsTemplateConfig → SiteDnsInput → ℕ → Option (List RR)
  ensure_root_records z zone tpl in' serial =
      root_rest zone (fqdn zone) z.ttl tpl
        (ensure_addresses (fqdn zone) z.ttl in' (root_base (fqdn zone) z.ttl serial tpl z.rrs))

  unfoldable pub new_zone_from_template : Text → DnsTemplateConfig → ZoneModel lib
  new_zone_from_template zone tpl = record {
    origin = fqdn zone;
    ttl = nonzero_or tpl.ttl 3600;
    rrs = [];
  }

  -- The records of the zone without the addresses of the name.
  unfoldable pub without_addresses : Text → List RR → List RR
  without_addresses n rrs =
      remove_rr_on_name_and_type lib (remove_rr_on_name_and_type lib rrs n type_a) n type_aaaa

  module _ (host : BindHost) where
    open host use {env, cfg}

    unfoldable pub or_template : DnsTemplateConfig → Option DnsTemplateConfig → DnsTemplateConfig
    or_template zero_value none = zero_value
    or_template zero_value (some tpl) = tpl

    -- The zero value of a Go struct.
    unfoldable pub zero_template : DnsTemplateConfig
    zero_template = record {
      ttl = 0;
      soa = record { mname = []; rname = []; refresh = 0; retry = 0; expire = 0; minimum = 0 };
      nameservers = [];
      records = [];
    }

    unfoldable pub template_for : Text → DnsTemplateConfig
    template_for name =
        let wanted = if is_empty name then cfg.default_template else name in
        or_template (or_template zero_template (lookup text_eq cfg.default_template cfg.templates))
          (lookup text_eq wanted cfg.templates)

    unfoldable pub default_ttl : ℕ
    default_ttl = nonzero_or (template_for cfg.default_template).ttl 3600

    -- `util.Run`: what it says of a failure is the caller's.
    unfoldable pub run : List Text → (CmdResult → Error → Error) → Io (Unit {0})
    run argv say w =
        let res = env.run w.clock argv w.files in
        elim res.failure [ none ↦ (ok tt, tick w) | some e ↦ (err (say res e), tick w) ]

    unfoldable pub with_stderr : Text → CmdResult → Error → Error
    with_stderr prefix res e =
        errorf (prefix ++ (e.message ++ (text " stderr=" ++ trim_space res.stderr)))

    unfoldable pub validate_zone : Text → Io (Unit {0})
    validate_zone zone =
        if is_empty cfg.bind.checkzone_bin
        then return tt
        else run (cfg.bind.checkzone_bin ∷ zone ∷ zone_path lib host zone ∷ [])
            (with_stderr (text "named-checkzone failed: "))

    unfoldable pub validate_conf : Io (Unit {0})
    validate_conf =
        if is_empty cfg.bind.checkconf_bin || is_empty cfg.bind.named_conf_path
        then return tt
        else run (cfg.bind.checkconf_bin ∷ cfg.bind.named_conf_path ∷ [])
            (with_stderr (text "named-checkconf failed: "))

    unfoldable pub rndc_reload : Text → Io (Unit {0})
    rndc_reload zone =
        if is_empty cfg.bind.rndc_bin
        then return tt
        else run (cfg.bind.rndc_bin ∷ text "reload" ∷ zone ∷ []) (λ res e. e)

    unfoldable pub rndc_reconfig : Io (Unit {0})
    rndc_reconfig =
        if is_empty cfg.bind.rndc_bin
        then return tt
        else run (cfg.bind.rndc_bin ∷ text "reconfig" ∷ []) (λ res e. e)

    -- A zone that is not there yet is made from the template.
    unfoldable pub loaded_or_new :
        Text → DnsTemplateConfig → Result (ZoneModel lib) → Io (ZoneModel lib)
    loaded_or_new zone tpl (ok z) = return z
    loaded_or_new zone tpl (err e) =
        if e.not_exist then return (new_zone_from_template zone tpl) else fail e

    unfoldable pub write_and_check : Text → ZoneModel lib → Io (Unit {0})
    write_and_check zone z = do write_zone lib host zone z; validate_zone zone

    unfoldable pub reconfigure : Io (Unit {0})
    reconfigure = do write_include_file lib host; validate_conf; rndc_reconfig

    unfoldable pub publish_root : Text → ZoneModel lib → Option (List RR) → Io Exit
    publish_root zone z none = return panicked
    publish_root zone z (some rrs) = do
      write_and_check zone (record z { rrs = rrs })
      reconfigure
      rndc_reload zone
      return done

    -- `uint32(time.Now().Unix())`
    unfoldable pub serial_at : World → ℕ
    serial_at w = host.unix_time w.clock % 2 ^ 32

    unfoldable pub ensure_root_site : SiteDnsInput → Io Exit
    ensure_root_site in' = do
      lift (validate in')
      found ← try (load_zone lib host (normalize_domain in'.fqdn) (template_for in'.template).ttl)
      z ← loaded_or_new (normalize_domain in'.fqdn) (template_for in'.template) found
      (λ w.
          publish_root (normalize_domain in'.fqdn) z
            (ensure_root_records z (normalize_domain in'.fqdn) (template_for in'.template) in'
              (serial_at w))
            w)

    unfoldable pub publish_records : Text → ZoneModel lib → Option (List RR) → Io Exit
    publish_records zone z none = return panicked
    publish_records zone z (some rrs) = do
      write_and_check zone (record z { rrs = rrs })
      rndc_reload zone
      return done

    unfoldable pub ensure_subdomain_site : SiteDnsInput → Io Exit
    ensure_subdomain_site in' = do
      lift (validate in')
      z ←
          wrapping (text "load parent zone " ++ (normalize_domain in'.parent_domain ++ text ": "))
            (load_zone lib host (normalize_domain in'.parent_domain) default_ttl)
      publish_records (normalize_domain in'.parent_domain) z
          (ensure_addresses (fqdn (normalize_domain in'.fqdn)) z.ttl in' z.rrs)

    unfoldable pub delete_records : Text → Text → Result (ZoneModel lib) → Io (Unit {0})
    delete_records zone n (err e) = if e.not_exist then return tt else fail e
    delete_records zone n (ok z) = do
      write_and_check zone (record z { rrs = without_addresses n z.rrs })
      rndc_reload zone

    unfoldable pub delete_subdomain_site : SiteDnsInput → Io (Unit {0})
    delete_subdomain_site in' = do
      found ← try (load_zone lib host (normalize_domain in'.parent_domain) default_ttl)
      delete_records (normalize_domain in'.parent_domain) (fqdn (normalize_domain in'.fqdn)) found

    unfoldable pub unless_missing : Result (Unit {0}) → Io (Unit {0})
    unless_missing (ok u) = return tt
    unless_missing (err e) = if e.not_exist then return tt else fail e

    unfoldable pub delete_root_site : SiteDnsInput → Io (Unit {0})
    delete_root_site in' = do
      removed ← try (remove env (other (zone_path lib host (normalize_domain in'.fqdn))))
      unless_missing removed
      reconfigure
