-- ===== src/Dns/Include.antt =====
-- internal/dns/bind/namedconf.go: the include file that names every zone.
pub mod Laws
use ngm.Base.{
  ℕ, Bool, true, false, List, [], ◌∷◌, ◌++◌, Result, ok, err, Error, if◌then◌else◌, wrap, wrap_step,
  return, ◌>>=◌,
}
use ngm.Base.Sort.{sort}
use ngm.Text.{Text, text, has_suffix, trim_suffix, less}
use ngm.Os.Paths.{other}
use ngm.Os.{Io, World, write_file_atomic}
use ngm.Dns.Records.{DnsLib}
use ngm.Dns.Zone.{BindHost, zone_path}

unfoldable pub zones_of : Text → List (Text × Bool) → List Text
zones_of suffix [] = []
zones_of suffix ((n, true) ∷ es) = zones_of suffix es
zones_of suffix ((n, false) ∷ es) =
    let rest = zones_of suffix es in
    if has_suffix n suffix then trim_suffix n suffix ∷ rest else rest

module _ (lib : DnsLib) (host : BindHost) where
  open host use {env, cfg}

  -- A missing directory is one without zones.
  unfoldable pub zone_entries : Result (List (Text × Bool)) × World → Result (List Text) × World
  zone_entries (ok es, w) = (ok (zones_of cfg.bind.zone_file_suffix es), w)
  zone_entries (err e, w) =
      if e.not_exist then (ok [], w) else (err (wrap (text "read zones dir: ") e), w)

  unfoldable pub zone_names : Io (List Text)
  zone_names w = zone_entries (host.read_dir cfg.bind.zones_dir w)

  unfoldable pub zone_stanza : Text → Text
  zone_stanza zone =
      text "zone \""
      ++ (zone
          ++ (text "\" IN {\n    type master;\n    file \""
              ++ (zone_path lib host zone ++ text "\";\n};\n\n")))

  unfoldable pub stanzas : List Text → Text
  stanzas [] = []
  stanzas (zone ∷ zones) = zone_stanza zone ++ stanzas zones

  unfoldable pub include_text : List Text → Text
  include_text zones = text "// generated by NGM. DO NOT EDIT.\n" ++ stanzas (sort less zones)

  unfoldable pub write_include_file : Io (Unit {0})
  write_include_file = do
    zones ← zone_names
    write_file_atomic env (other cfg.bind.named_conf_include) (include_text zones)
