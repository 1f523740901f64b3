-- ===== src/Dns/Bind/Frame.antt =====
-- Which files the operations of internal/dns/bind/bind.go change.
use ngm.Base.{◌≡◌, false, ◌||◌, List, Option, none, some, Error, Result, ok, err, arith}
use ngm.Text.{Text, is_empty}
use ngm.Os.Paths.{FilePath, other, is_temp, path_eq}
use ngm.Os.{CmdResult}
use ngm.Os.Frame.{
  Keeps, >>=-Keeps, >>-Keeps, wrapping-Keeps, try-Keeps, return-Keeps, fail-Keeps, if-Keeps,
  read_file-Keeps, write-Keeps,
}
use ngm.Dns.{SiteDnsInput, validate}
use ngm.Dns.Records.{DnsLib}
use ngm.Dns.Zone.{BindHost, ZoneModel, zone_path, zone_of, load_zone, write_zone}
use ngm.Dns.Bind.{
  normalize_domain, lift, run, validate_zone, validate_conf, rndc_reload, rndc_reconfig,
  write_and_check, publish_records, ensure_subdomain_site, delete_records, delete_subdomain_site,
}

module _ (lib : DnsLib) (host : BindHost) {q : FilePath} where
  open host use {env, cfg}
  open lib use {RR, fqdn}

  lift-Keeps : {A : Type 0} (r : Result A) → Keeps q (lift r)
  unfolding lift
  lift-Keeps (ok a) = return-Keeps a
  lift-Keeps (err e) = fail-Keeps e

  zone_of-Keeps : (zone : Text) (ttl : _) (r : Result (List RR)) → Keeps q (zone_of lib zone ttl r)
  unfolding zone_of
  zone_of-Keeps zone ttl (ok rrs) = return-Keeps _
  zone_of-Keeps zone ttl (err e) = fail-Keeps _

  load_zone-Keeps : (zone : Text) (ttl : _) → Keeps q (load_zone lib host zone ttl)
  unfolding load_zone
  load_zone-Keeps zone ttl =
      >>=-Keeps (read_file-Keeps env (other (zone_path lib host zone)))
        λ b. zone_of-Keeps zone ttl (lib.parse_zone b _)

  run-Keeps : (argv : List Text) (say : CmdResult → Error → Error) → Keeps q (run lib host argv say)
  unfolding run
  run-Keeps argv say = record { kept = λ w. ground arith }

  validate_zone-Keeps : (zone : Text) → Keeps q (validate_zone lib host zone)
  unfolding validate_zone
  validate_zone-Keeps zone =
      if-Keeps (is_empty cfg.bind.checkzone_bin) (return-Keeps tt) (run-Keeps _ _)

  validate_conf-Keeps : Keeps q (validate_conf lib host)
  unfolding validate_conf
  validate_conf-Keeps =
      if-Keeps (is_empty cfg.bind.checkconf_bin || is_empty cfg.bind.named_conf_path)
        (return-Keeps tt) (run-Keeps _ _)

  rndc_reload-Keeps : (zone : Text) → Keeps q (rndc_reload lib host zone)
  unfolding rndc_reload
  rndc_reload-Keeps zone = if-Keeps (is_empty cfg.bind.rndc_bin) (return-Keeps tt) (run-Keeps _ _)

  rndc_reconfig-Keeps : Keeps q (rndc_reconfig lib host)
  unfolding rndc_reconfig
  rndc_reconfig-Keeps = if-Keeps (is_empty cfg.bind.rndc_bin) (return-Keeps tt) (run-Keeps _ _)

  module _ (no_temp : is_temp q ≡ false) where
    module _ (zone : Text) (away : path_eq (other (zone_path lib host zone)) q ≡ false) where
      write_and_check-Keeps : (z : ZoneModel lib) → Keeps q (write_and_check lib host zone z)
      unfolding write_and_check write_zone
      write_and_check-Keeps z =
          >>-Keeps (write-Keeps env (other (zone_path lib host zone)) _ no_temp away)
            (validate_zone-Keeps zone)

      publish_records-Keeps :
          (z : ZoneModel lib) (o : Option (List RR)) → Keeps q (publish_records lib host zone z o)
      unfolding publish_records
      publish_records-Keeps z none = return-Keeps _
      publish_records-Keeps z (some rrs) =
          >>-Keeps (write_and_check-Keeps _) (>>-Keeps (rndc_reload-Keeps zone) (return-Keeps _))

      delete_records-Keeps :
          (n : Text) (r : Result (ZoneModel lib)) → Keeps q (delete_records lib host zone n r)
      unfolding delete_records
      delete_records-Keeps n (err e) = if-Keeps e.not_exist (return-Keeps tt) (fail-Keeps e)
      delete_records-Keeps n (ok z) = >>-Keeps (write_and_check-Keeps _) (rndc_reload-Keeps zone)

    module _ (in' : SiteDnsInput)
        (away : path_eq (other (zone_path lib host (normalize_domain in'.parent_domain))) q
          ≡ false) where
      -- Whatever fails, adding the records of a subdomain changes no file but the zone file of the
      -- parent domain, and temporary ones.
      pub ensure_subdomain_site-Keeps : Keeps q (ensure_subdomain_site lib host in')
      unfolding ensure_subdomain_site
      ensure_subdomain_site-Keeps = >>-Keeps (lift-Keeps (validate in')) (
          >>=-Keeps (wrapping-Keeps _ (load_zone-Keeps (normalize_domain in'.parent_domain) _))
            λ z. publish_records-Keeps (normalize_domain in'.parent_domain) away z _)

      pub delete_subdomain_site-Keeps : Keeps q (delete_subdomain_site lib host in')
      unfolding delete_subdomain_site
      delete_subdomain_site-Keeps =
          >>=-Keeps (try-Keeps (load_zone-Keeps (normalize_domain in'.parent_domain) _)) λ found.
            delete_records-Keeps (normalize_domain in'.parent_domain) away
              (fqdn (normalize_domain in'.fqdn)) found
