-- ===== src/Config/Stable.antt =====
-- The defaults of a configuration, given twice, are those given once.
use ngm.Base.{◌≡◌, refl, sym, Bool, true, false, [], ◌∷◌, Option, none, some, List}
use ngm.Base.Dict.{lookup, lookup-insert_same}
use ngm.Text.{Text, text_eq}
use ngm.Text.Laws.{text_eq_refl}
use ngm.Config.{
  Config, NginxApplyConfig, NginxConfig, StorageConfig, DnsConfig, DnsBindConfig, DnsTemplateConfig,
}
use ngm.Config.Defaults.{
  default_to, default_true, default_apply, default_nginx, default_storage, default_bind,
  default_template, add_template, default_dns, apply_defaults,
}

pub default_to_idem : (v s : Text) → default_to v (default_to v s) ≡ default_to v s
unfolding default_to
default_to_idem v (c ∷ s) = refl
default_to_idem [] [] = refl
default_to_idem (c ∷ v) [] = refl

default_true_idem : (b : Bool) → default_true (default_true b) ≡ default_true b
unfolding default_true
default_true_idem true = refl
default_true_idem false = refl

default_apply_idem :
    (systemd : Bool) (a : NginxApplyConfig)
    → default_apply systemd (default_apply systemd a) ≡ default_apply systemd a
unfolding default_apply
default_apply_idem systemd a = simp (default_to_idem, default_true_idem)

default_nginx_idem :
    (systemd : Bool) (n : NginxConfig)
    → default_nginx systemd (default_nginx systemd n) ≡ default_nginx systemd n
unfolding default_nginx
default_nginx_idem systemd n = simp (default_to_idem, default_apply_idem)

default_storage_idem : (s : StorageConfig) → default_storage (default_storage s) ≡ default_storage s
unfolding default_storage
default_storage_idem s = simp (default_to_idem)

default_bind_idem : (b : DnsBindConfig) → default_bind (default_bind b) ≡ default_bind b
unfolding default_bind
default_bind_idem b = simp (default_to_idem)

add_template_idem :
    (name : Text) (m : List (Text × DnsTemplateConfig)) (found : Option DnsTemplateConfig)
    → found ≡ lookup text_eq name m
    → add_template name
        (lookup text_eq name (add_template name found m))
        (add_template name found m)
      ≡ add_template name found m
unfolding add_template
add_template_idem name m none h =
    rw (lookup-insert_same text_eq name default_template m (text_eq_refl name)) refl
add_template_idem name m (some t) h = rw (sym h) refl

default_dns_idem : (d : DnsConfig) → default_dns (default_dns d) ≡ default_dns d
unfolding default_dns
default_dns_idem d = simp (default_to_idem, default_bind_idem, add_template_idem)

-- Applying the defaults to a configuration that has them changes nothing.
pub apply_defaults_idem :
    (systemd : Bool) (c : Config)
    → apply_defaults systemd (apply_defaults systemd c) ≡ apply_defaults systemd c
unfolding apply_defaults
apply_defaults_idem systemd c =
    simp (default_to_idem, default_nginx_idem, default_storage_idem, default_dns_idem)
