-- ===== src/Template/Laws.antt =====
-- What `buildTemplateData` of internal/app/template.go writes, and the pool behind a PHP site.
use ngm.Base.{
  bind_ok, ℕ, ◌≡◌, refl, ap, ◌∙◌, Bool, true, false, List, [], ◌∷◌, Option, none, some, Error,
  Result, ok, err, if◌then◌else◌, Option-cases, inl, inr, return,
}
use ngm.Text.{Text, text}
use ngm.Text.Place.{join}
use ngm.Os.Paths.{FilePath, live, backup, other, path_eq, is_temp}
use ngm.Os.{Env, Io, World}
use ngm.Os.Frame.{
  Keeps, stat-Keeps, return-Keeps, fail-Keeps, if-Keeps, >>=-Keeps, >>-Keeps, try-Keeps, call-Keeps,
  wrapping-Keeps, read_file-Keeps,
}
use ngm.Config.{PhpFpmVersion}
use ngm.Nginx.{SiteTemplateData, ProxyCfg, UpstreamTarget}
use ngm.Store.{Site, SiteStore}
use ngm.Fpm.{PoolAnswer}
use ngm.Fpm.Frame.{ensure_pool-files}
use ngm.Apply.{Host}
use ngm.Apply.One.Frame.{BuildsFor}
use ngm.Template.{
  Builder, Issued, put_issued, file_exists, both_exist, made, generate, generate_unless,
  ensure_self_signed_cert, tls_or_fallback, tls_files, some_targets, listed, proxy_of, data_of,
  build_template_data, is_php, no_proxy,
}
use ngm.Template.Pool.{
  SitePools, PoolStore, php_pass, with_version, with_user, with_pool, pass_of, pool_of,
}

module _ (env : Env) (q : FilePath) where
  file_exists-Keeps : (p : Text) → Keeps q (file_exists env p)
  unfolding file_exists
  file_exists-Keeps p = record { kept = (stat-Keeps env (other p)).kept }

  both_exist-Keeps : (a b : Text) → Keeps q (both_exist env a b)
  unfolding both_exist
  both_exist-Keeps a b =
      >>=-Keeps (file_exists-Keeps a)
        (λ there. if-Keeps there (file_exists-Keeps b) (return-Keeps false))

  made-Keeps : (cert key : Text) (o : Option Error) → Keeps q (made env cert key o)
  unfolding made
  made-Keeps cert key (some e) = fail-Keeps _
  made-Keeps cert key none =
      >>-Keeps (try-Keeps (call-Keeps env))
        (>>-Keeps (try-Keeps (call-Keeps env)) (return-Keeps tt))

  put_issued-files :
      (p : FilePath) (o : Option Text) (w : World)
      → path_eq p q ≡ false
      → (put_issued p o w).files q ≡ w.files q
  unfolding put_issued
  put_issued-files p none w h = refl
  put_issued-files p (some c) w h = rw h refl

  module _ (openssl : ℕ → List Text → Issued) (domain cert key : Text)
      (not_cert : path_eq (other cert) q ≡ false) (not_key : path_eq (other key) q ≡ false) where
    generate-Keeps : Keeps q (generate env openssl domain cert key)
    unfolding generate
    generate-Keeps = record {
      kept = λ w.
          (made-Keeps cert key _).kept _
          ∙ put_issued-files (other cert) _ _ not_cert
          ∙ put_issued-files (other key) _ _ not_key;
    }

    unless-Keeps : (there : Bool) → Keeps q (generate_unless env there openssl domain cert key)
    unfolding generate_unless
    unless-Keeps true = return-Keeps tt
    unless-Keeps false =
        >>-Keeps (wrapping-Keeps _ (call-Keeps env))
          (>>-Keeps (wrapping-Keeps _ (call-Keeps env)) generate-Keeps)

    ensure_cert-Keeps : Keeps q (ensure_self_signed_cert env openssl domain cert key)
    unfolding ensure_self_signed_cert
    ensure_cert-Keeps = >>=-Keeps (both_exist-Keeps cert key) unless-Keeps

-- The self-signed certificate of a domain and its key.
abbrev pub fallback : {State : Type 0} → Builder State → Text → Text → Text
fallback b domain file =
    join (join (join (join b.paths.nginx_root (text "conf")) (text "selfsigned")) domain) file

module _ {State : Type 0} (b : Builder State) (q : FilePath) where
  module _ (domain : Text)
      (not_cert : path_eq (other (fallback b domain (text "fullchain.pem"))) q ≡ false)
      (not_key : path_eq (other (fallback b domain (text "privkey.pem"))) q ≡ false) where
    tls_or_fallback-Keeps : (there : Bool) → Keeps q (tls_or_fallback b there domain)
    unfolding tls_or_fallback
    tls_or_fallback-Keeps true = return-Keeps _
    tls_or_fallback-Keeps false =
        >>-Keeps (ensure_cert-Keeps b.pools.env q b.openssl domain _ _ not_cert not_key)
          (return-Keeps _)

    pub tls_files-Keeps : Keeps q (tls_files b domain)
    unfolding tls_files
    tls_files-Keeps = >>=-Keeps (both_exist-Keeps b.pools.env q _ _) tls_or_fallback-Keeps

  some_targets-Keeps : (r : Result (List UpstreamTarget)) → Keeps q (some_targets b r)
  unfolding some_targets
  some_targets-Keeps (err e) = fail-Keeps _
  some_targets-Keeps (ok []) = fail-Keeps _
  some_targets-Keeps (ok (t ∷ ts)) = return-Keeps _

  listed-Keeps :
      (l : Option (ℕ → State → Result (List UpstreamTarget))) (id : ℕ) (db : State)
      → Keeps q (listed b l id db)
  unfolding listed
  listed-Keeps none id db = fail-Keeps _
  listed-Keeps (some list) id db = some_targets-Keeps (list id db)

  pub proxy_of-Keeps : (s : Site) (db : State) → Keeps q (proxy_of b s db)
  unfolding proxy_of
  proxy_of-Keeps s db = if-Keeps _ (listed-Keeps b.proxy_lister s.id db) (return-Keeps no_proxy)

module _ (h : SitePools) {State : Type 0} (store : PoolStore State) (s : Site) (domain : Text) where
  pub pass_of-files :
      (socket : Text) (x : PoolAnswer × World) (q : FilePath)
      → (pass_of socket x).1.files q ≡ x.1.files q
  unfolding pass_of
  pass_of-files socket (a, w) q = elim (Option-cases a.failure) [
    | inl e ↦ rw (e, pass_of) refl
    | inr (e', e) ↦ rw (e, pass_of) refl
  ]

  module _ (q : FilePath) (fixed : is_temp q ≡ false)
      (named : (p : Text) → path_eq (other p) q ≡ false) where
    with_pool-Keeps :
        (ver : PhpFpmVersion) (user : Text) (db : State)
        → Keeps q (with_pool h store s domain ver user db)
    unfolding with_pool
    with_pool-Keeps ver user db = >>=-Keeps (try-Keeps (read_file-Keeps h.env _)) λ ini. record {
      kept = λ w.
          pass_of-files _ _ q
          ∙ ensure_pool-files h.env h.render q fixed ver.pools_dir ver.service ver.sock_dir domain
              s.php_version (pool_of h store s domain ver user db ini) w (named _);
    }

    with_user-Keeps :
        (ver : PhpFpmVersion) (user : Option Text) (db : State)
        → Keeps q (with_user h store s domain ver user db)
    unfolding with_user
    with_user-Keeps ver none db = fail-Keeps _
    with_user-Keeps ver (some user) db = with_pool-Keeps ver user db

    with_version-Keeps :
        (ver : Option PhpFpmVersion) (db : State) → Keeps q (with_version h store s domain ver db)
    unfolding with_version
    with_version-Keeps none db = fail-Keeps _
    with_version-Keeps (some ver) db = with_user-Keeps ver _ db

    php_pass-Keeps : (db : State) → Keeps q (php_pass h store s domain db)
    unfolding php_pass
    php_pass-Keeps db = with_version-Keeps _ db

module _ {State : Type 0} (b : Builder State) (s : Site) (domain : Text) (db : State) where
  abbrev pub pass_step : Io Text
  pass_step = if is_php s.mode then php_pass b.pools b.store s domain db else return []

  -- The data that is returned is made of the address of the pool, of the certificate's files and of the
  -- proxy's targets.
  pub build-parts :
      (w : World) (td : SiteTemplateData)
      → (build_template_data b s domain db w).0 ≡ ok td
      → (pass : Text) × (tls : Text × Text) × (proxy : ProxyCfg) × (pass_step w
          ≡ (ok pass, (pass_step w).1))
        × (td ≡ data_of b s domain pass tls proxy)
  unfolding build_template_data return
  build-parts w td h =
      let (pass, is_pass, h1) = bind_ok pass_step _ w td h in
      let (tls, is_tls, h2) = bind_ok (tls_files b domain) _ (pass_step w).1 td h1 in
      let (proxy, is_proxy, h3) =
        bind_ok (proxy_of b s db) _ (tls_files b domain (pass_step w).1).1 td h2 in
      (pass, tls, proxy, is_pass, cc)

  build-Keeps :
      (q : FilePath)
      → is_temp q ≡ false
      → ((p : Text) → path_eq (other p) q ≡ false)
      → Keeps q (build_template_data b s domain db)
  unfolding build_template_data
  build-Keeps q fixed named =
      >>=-Keeps
        (if-Keeps (is_php s.mode) (php_pass-Keeps b.pools b.store s domain q fixed named db)
          (return-Keeps []))
        λ pass.
          >>=-Keeps (tls_files-Keeps b q domain (named _) (named _))
            λ tls. >>=-Keeps (proxy_of-Keeps b q s db) λ proxy. return-Keeps _

-- The host whose data is made by `buildTemplateData`.
abbrev pub template_host : {S : SiteStore} → Host S → Builder S.State → Host S
template_host host b = record host { build_template_data = build_template_data b }

-- `buildTemplateData` makes data of the domain asked for, whatever fails, and writes no live file and
-- no backup: the apply pipeline can rely on it.
pub build_template_data-BuildsFor :
    {S : SiteStore} (host : Host S) (b : Builder S.State) → BuildsFor (template_host host b)
unfolding data_of
build_template_data-BuildsFor host b = record {
  of_domain = λ s d db w td h.
      let (pass, tls, proxy, _, same) = build-parts b s d db w td h in ap (λ x. x.domain) same;
  keeps_live = λ s d db e. build-Keeps b s d db (live e) refl (λ p. refl);
  keeps_backup = λ s d db e. build-Keeps b s d db (backup e) refl (λ p. refl);
}
