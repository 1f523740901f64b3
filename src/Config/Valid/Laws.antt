-- ===== src/Config/Valid/Laws.antt =====
-- What a configuration that `Validate` and `Load` of internal/config/config.go accept is like.
use ngm.Base.{
  ℕ, ◌+◌, ◌≡◌, refl, ◌↔◌, Bool, true, false, not, ◌&&◌, ◌||◌, List, [], ◌∷◌, ◌++◌, Option, none,
  some, if◌then◌else◌, All,
}
use ngm.Base.Dict.{lookup}
use ngm.Text.{Text, text, text_eq, is_empty}
use ngm.Config.{Config, NginxConfig, ApiConfig, CertsConfig, PhpFpmConfig, PhpFpmVersion, DnsConfig}
use ngm.Config.Defaults.{default_true, default_apply, default_nginx, apply_defaults}
use ngm.Config.Given.{IsGiven}
use ngm.Config.Valid.{
  Problem, Parsed, parsed, ReadFile, contents, is_blank, problem_if, is_some, is_none_of,
  is_reload_mode, check_nginx, check_tokens, check_cidr, check_versions, check_php, check_certs,
  check_enabled_dns, check_dns, check_allow_ips, check_api, validate,
}

append_iff :
    {P Q : Type 0} {xs ys : List Problem}
    → (xs ≡ []) ↔ P
    → (ys ≡ []) ↔ Q
    → (xs ++ ys ≡ []) ↔ (P × Q)
append_iff {xs = []} h k = (λ e. (h.0 refl, k.0 e), λ pq. k.1 pq.1)
append_iff {xs = x ∷ xs} h k = (λ e. cc, λ pq. cc (h.1 pq.0))

problem_if_iff : (b : Bool) (p : Problem) → (problem_if b p ≡ []) ↔ (b ≡ false)
unfolding problem_if
problem_if_iff true p = (λ e. cc, λ e. cc)
problem_if_iff false p = (λ e. refl, λ e. refl)

abbrev pub IsFilled : Text → Type 0
IsFilled s = is_blank s ≡ false

is_blank_iff : (s : Text) (p : Problem) → (problem_if (is_blank s) p ≡ []) ↔ IsFilled s
is_blank_iff s p = problem_if_iff (is_blank s) p

unless_iff : (b : Bool) (p : Problem) → (problem_if (not b) p ≡ []) ↔ (b ≡ true)
unfolding problem_if
unless_iff true p = (λ e. refl, λ e. refl)
unless_iff false p = (λ e. cc, λ e. cc)

-- Each of two tests is enough to be free of the problem.
neither_iff : (a b : Bool) (p : Problem) → (problem_if (not a && not b) p ≡ []) ↔ ((a || b) ≡ true)
unfolding problem_if
neither_iff true b p = (λ e. refl, λ e. refl)
neither_iff false true p = (λ e. refl, λ e. refl)
neither_iff false false p = (λ e. cc, λ e. cc)

check_tokens_iff : (i : ℕ) (ts : List Text) → (check_tokens i ts ≡ []) ↔ All IsFilled ts
unfolding check_tokens
check_tokens_iff i [] = (λ e. tt, λ e. refl)
check_tokens_iff i (t ∷ ts) = append_iff (is_blank_iff t _) (check_tokens_iff (i + 1) ts)

abbrev pub VersionFilled : Text × PhpFpmVersion → Type 0
VersionFilled (ver, v) = IsFilled v.pools_dir × (IsFilled v.service × IsFilled v.sock_dir)

check_versions_iff :
    (vs : List (Text × PhpFpmVersion)) → (check_versions vs ≡ []) ↔ All VersionFilled vs
unfolding check_versions
check_versions_iff [] = (λ e. tt, λ e. refl)
check_versions_iff ((ver, v) ∷ vs) =
    append_iff
      (append_iff (is_blank_iff v.pools_dir _)
        (append_iff (is_blank_iff v.service _) (is_blank_iff v.sock_dir _)))
      (check_versions_iff vs)

-- The configurations without a problem, by section.
abbrev pub ValidNginx : NginxConfig → Type 0
ValidNginx n =
    IsFilled n.root × ((is_blank n.apply.reload_mode || is_reload_mode n.apply.reload_mode) ≡ true)

abbrev pub ValidCerts : CertsConfig → Type 0
ValidCerts c =
    ((is_empty c.mode || text_eq c.mode (text "certbot")) ≡ true)
    × (IsFilled c.webroot × IsFilled c.letsencrypt_live)

abbrev pub ValidPhp : PhpFpmConfig → Type 0
ValidPhp p =
    ((is_empty p.default_version
        || (is_some (lookup text_eq p.default_version p.versions) || is_none_of p.versions))
      ≡ true)
    × All VersionFilled p.versions

abbrev pub ValidEnabledDns : DnsConfig → Type 0
ValidEnabledDns d =
    IsFilled d.default_template
    × ((is_some (lookup text_eq d.default_template d.templates) ≡ true)
        × (IsFilled d.bind.named_conf_include × IsFilled d.bind.zones_dir))

abbrev pub ValidDns : DnsConfig → Type 0
ValidDns d = d.enabled ≡ true → ValidEnabledDns d

all_of_iff :
    (a b c : Bool) (p : Problem)
    → (problem_if (not a && (not b && not c)) p ≡ []) ↔ ((a || (b || c)) ≡ true)
unfolding problem_if
all_of_iff true b c p = (λ e. refl, λ e. refl)
all_of_iff false true c p = (λ e. refl, λ e. refl)
all_of_iff false false true p = (λ e. refl, λ e. refl)
all_of_iff false false false p = (λ e. cc, λ e. cc)

check_nginx_iff : (n : NginxConfig) → (check_nginx n ≡ []) ↔ ValidNginx n
unfolding check_nginx
check_nginx_iff n = append_iff (is_blank_iff n.root _) (neither_iff _ _ _)

check_certs_iff : (c : CertsConfig) → (check_certs c ≡ []) ↔ ValidCerts c
unfolding check_certs
check_certs_iff c =
    append_iff (neither_iff _ _ _)
      (append_iff (is_blank_iff c.webroot _) (is_blank_iff c.letsencrypt_live _))

check_php_iff : (p : PhpFpmConfig) → (check_php p ≡ []) ↔ ValidPhp p
unfolding check_php
check_php_iff p =
    append_iff
      (all_of_iff (is_empty p.default_version)
        (is_some (lookup text_eq p.default_version p.versions)) (is_none_of p.versions)
        (Problem.default_version_unknown p.default_version))
      (check_versions_iff p.versions)

check_enabled_dns_iff : (d : DnsConfig) → (check_enabled_dns d ≡ []) ↔ ValidEnabledDns d
unfolding check_enabled_dns
check_enabled_dns_iff d = append_iff (is_blank_iff d.default_template _) (
    append_iff (unless_iff _ _)
      (append_iff (is_blank_iff d.bind.named_conf_include _) (is_blank_iff d.bind.zones_dir _)))

when_iff :
    {P : Type 0} (b : Bool) (ps : List Problem)
    → (ps ≡ []) ↔ P
    → ((if b then ps else []) ≡ []) ↔ (b ≡ true → P)
when_iff true ps h = (λ e _. h.0 e, λ k. h.1 (k refl))
when_iff false ps h = (λ e k. cc, λ k. refl)

check_dns_iff : (d : DnsConfig) → (check_dns d ≡ []) ↔ ValidDns d
unfolding check_dns
check_dns_iff d = when_iff d.enabled (check_enabled_dns d) (check_enabled_dns_iff d)

default_true_lem : (b : Bool) → default_true b ≡ true
unfolding default_true
default_true_lem true = refl
default_true_lem false = refl

tests :
    (systemd : Bool) (c : Config) → (apply_defaults systemd c).nginx.apply.test_before_reload ≡ true
unfolding apply_defaults default_nginx default_apply
tests systemd c = default_true_lem c.nginx.apply.test_before_reload

module _ (parse_cidr : Text → Option Text) where
  -- A network that is not blank and that `net.ParseCIDR` reads.
  abbrev pub IsCidr : Text → Type 0
  IsCidr s = IsFilled s × (parse_cidr s ≡ none)

  check_cidr_iff :
      (i : ℕ) (s : Text)
      → ((if is_blank s then Problem.allow_ip_empty i ∷ [] else check_cidr i s (parse_cidr s)) ≡ [])
        ↔ IsCidr s
  unfolding check_cidr
  check_cidr_iff i s = cidr_iff (is_blank s) (parse_cidr s)
    where
      cidr_iff :
          (b : Bool) (r : Option Text)
          → ((if b then Problem.allow_ip_empty i ∷ [] else check_cidr i s r) ≡ [])
            ↔ ((b ≡ false) × (r ≡ none))
      cidr_iff true r = (λ e. cc, λ e. cc (e.0))
      cidr_iff false none = (λ e. (refl, refl), λ e. refl)
      cidr_iff false (some x) = (λ e. cc, λ e. cc (e.1))

  check_allow_ips_iff :
      (i : ℕ) (cidrs : List Text) → (check_allow_ips parse_cidr i cidrs ≡ []) ↔ All IsCidr cidrs
  unfolding check_allow_ips
  check_allow_ips_iff i [] = (λ e. tt, λ e. refl)
  check_allow_ips_iff i (s ∷ ss) = append_iff (check_cidr_iff i s) (check_allow_ips_iff (i + 1) ss)

  abbrev pub ValidApi : ApiConfig → Type 0
  ValidApi a = (is_none_of a.tokens ≡ false) × (All IsFilled a.tokens × All IsCidr a.allow_ips)

  abbrev pub Valid : Config → Type 0
  Valid c =
      ValidNginx c.nginx
      × (ValidApi c.api × (ValidCerts c.certs × (ValidPhp c.phpfpm × ValidDns c.dns)))

  -- `Validate` finds no problem exactly in the configurations that are `Valid`: a root, a reload
  -- mode that is blank or known, tokens, none of them blank, networks that parse, the certificate
  -- settings, complete PHP versions with the default among them, and, where DNS is enabled, its
  -- settings with the default template.
  pub validate_iff : (c : Config) → (validate parse_cidr c ≡ []) ↔ Valid c
  unfolding validate check_api
  validate_iff c = append_iff (check_nginx_iff c.nginx) (
      append_iff
        (append_iff (problem_if_iff _ _)
          (append_iff (check_tokens_iff 0 c.api.tokens) (check_allow_ips_iff 0 c.api.allow_ips)))
        (append_iff (check_certs_iff c.certs)
          (append_iff (check_php_iff c.phpfpm) (check_dns_iff c.dns))))

  -- What `Load` makes of a configuration that it reads and accepts.
  abbrev pub Accepted : Bool → Config → Config → Type 0
  Accepted systemd c0 c = Valid c × IsGiven systemd c0 c × (apply_defaults systemd c ≡ c)

  -- What `Load` reads: a file that can be read and decoded.
  abbrev pub IsRead : (Text → Parsed) → ReadFile → Config → Type 0
  IsRead decode file c0 = (b : Text) × (file ≡ contents b) × (decode b ≡ parsed c0)
