-- ===== src/Dns/Zone.antt =====
-- The zone files of internal/dns/bind/zonefile.go: reading, writing and the records of a zone.
use ngm.Base.{
  ℕ, Bool, List, [], ◌∷◌, ◌++◌, Result, ok, err, ltb, ◌==◌, if◌then◌else◌, map, wrap, return, fail,
  ◌>>=◌,
}
use ngm.Text.{Text, text, to_lower, trim_space}
use ngm.Text.Decimal.{decimal}
use ngm.Text.Place.{join}
use ngm.Os.Paths.{other}
use ngm.Os.{Env, Io, read_file, write_file_atomic}
use ngm.Config.{DnsConfig}
use ngm.Dns.Records.{DnsLib, ordered_rrs}

-- What the provider works with. `read_dir` is `os.ReadDir`, each entry with whether it is a directory;
-- `unix_time` is the time of day by the calls made.
pub record BindHost : Type 0 where
  pub env : Env
  pub cfg : DnsConfig
  pub read_dir : Text → Io (List (Text × Bool))
  pub unix_time : ℕ → ℕ

unfoldable pub nonzero_or : ℕ → ℕ → ℕ
nonzero_or n m = if n == 0 then m else n

unfoldable pub lines : List Text → Text
lines [] = []
lines (l ∷ ls) = l ++ (b'\n' ∷ lines ls)

module _ (lib : DnsLib) where
  open lib use {RR, ttl, to_string, fqdn, parse_zone}

  pub record ZoneModel : Type 0 where
    pub origin : Text
    pub ttl : ℕ
    pub rrs : List RR

  -- The TTL of the first record that has one.
  unfoldable pub first_ttl : List RR → ℕ
  first_ttl [] = 0
  first_ttl (rr ∷ rrs) = let rest = first_ttl rrs in if ltb 0 (ttl rr) then ttl rr else rest

  -- What `writeZone` writes.
  unfoldable pub zone_text : Text → ZoneModel → Text
  zone_text zone z = lines (
      (text "$ORIGIN " ++ fqdn zone)
      ∷ (text "$TTL " ++ decimal (nonzero_or z.ttl 3600))
      ∷ map to_string (ordered_rrs lib z.rrs))

  unfoldable pub zone_of : Text → ℕ → Result (List RR) → Io ZoneModel
  zone_of zone fallback_ttl (err e) = fail (wrap (text "parse zone " ++ (zone ++ text ": ")) e)
  zone_of zone fallback_ttl (ok rrs) = return (record {
    origin = fqdn (to_lower (trim_space zone));
    ttl = nonzero_or (nonzero_or (first_ttl rrs) fallback_ttl) 3600;
    rrs = rrs;
  })

  module _ (host : BindHost) where
    open host use {env, cfg}

    unfoldable pub zone_path : Text → Text
    zone_path zone = join cfg.bind.zones_dir (zone ++ cfg.bind.zone_file_suffix)

    unfoldable pub load_zone : Text → ℕ → Io ZoneModel
    load_zone zone fallback_ttl = do
      b ← read_file env (other (zone_path zone))
      zone_of zone fallback_ttl (parse_zone b (fqdn (to_lower (trim_space zone))))

    unfoldable pub write_zone : Text → ZoneModel → Io (Unit {0})
    write_zone zone z = write_file_atomic env (other (zone_path zone)) (zone_text zone z)
