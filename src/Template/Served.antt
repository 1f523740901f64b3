-- ===== src/Template/Served.antt =====
-- The pool behind the data that `buildTemplateData` of internal/app/template.go makes of a PHP site.
use ngm.Base.{
  ◌≡◌, refl, ap, ◌∙◌, true, false, ◌||◌, ◌++◌, Option, none, some, Result, ok, err, Option-cases,
  inl, inr, Bool-cases, try, ◌>>=◌, bind_step, arith, fail, return,
}
use ngm.Base.Dict.{lookup}
use ngm.Text.{Text, text, text_eq, is_empty}
use ngm.Os.Paths.{FilePath, other, path_eq}
use ngm.Os.{Io, World, read_file}
use ngm.Os.Frame.{>>=-Keeps, return-Keeps}
use ngm.Config.{PhpFpmVersion}
use ngm.Nginx.{SiteTemplateData}
use ngm.Names.{socket_path, pool_file_path}
use ngm.Store.{Site}
use ngm.Ini.{infer_user_from_webroot}
use ngm.Ini.Owner.{IsOwner, infer_user_from_webroot-IsOwner}
use ngm.Fpm.{PoolData, PoolAnswer, ensure_pool, with_content, with_socket, pool_failed}
use ngm.Fpm.Laws.{ensure_pool-content, pool_after, is_none}
use ngm.Template.{Builder, build_template_data, data_of, php_cfg, is_php, tls_files, proxy_of}
use ngm.Template.Pool.{
  SitePools, PoolStore, php_pass, with_version, with_user, with_pool, pass_of, pool_of, pool_data,
  overrides_path,
}
use ngm.Template.Laws.{
  pass_of-files, tls_files-Keeps, proxy_of-Keeps, build-parts, pass_step, fallback,
}

module _ (h : SitePools) where
  open h use {env, render}

  with_content-rendered :
      (path service socket : Text) (r : Result Text) (w : World)
      → (with_content env render path service socket r w).0.failure ≡ none
      → (content : Text) × (r ≡ ok content)
  unfolding with_content pool_failed
  with_content-rendered path service socket (ok content) w e = (content, refl)
  with_content-rendered path service socket (err e') w e = cc

  -- A call that returns no error has rendered the pool.
  ensure_pool-rendered :
      (pools_dir service sock_dir domain version : Text) (td : PoolData) (w : World)
      → (ensure_pool env render pools_dir service sock_dir domain version td w).0.failure ≡ none
      → (content : Text) × (render (with_socket env render (socket_path sock_dir domain version) td)
          ≡ ok content)
  unfolding ensure_pool pool_failed
  ensure_pool-rendered pools_dir service sock_dir domain version td w e =
      elim (Bool-cases (is_empty domain)) [
        | inl d ↦ let no : some _ ≡ none = rw d at e in cc
        | inr d ↦
            elim (Bool-cases (
              is_empty pools_dir
              || (is_empty service || (is_empty sock_dir || is_empty version)))) [
                | inl d' ↦ let no : some _ ≡ none = rw (d, d') at e in cc
                | inr d' ↦ with_content-rendered _ _ _ _ _ (rw (d, d') at e)
              ]
      ]

  pass_of-ok :
      (socket : Text) (x : PoolAnswer × World) (pass : Text)
      → (pass_of socket x).0 ≡ ok pass
      → (x.0.failure ≡ none) × (pass ≡ text "unix:" ++ socket)
  unfolding pass_of
  pass_of-ok socket (a, w) pass e = elim (Option-cases a.failure) [
    | inl f ↦ (f, (let same : ok (text "unix:" ++ socket) ≡ ok pass = rw f at e in cc))
    | inr (e', f) ↦ (let no : err _ ≡ ok pass = rw f at e in cc)
  ]

  module _ {State : Type 0} (store : PoolStore State) (s : Site) (domain : Text) (db : State) where
    -- The pool that a request of the site meets: nginx passes it to the socket on which the pool listens,
    -- the pool runs as the owner of the webroot, and its file is `files`.
    abbrev pub Served : PhpFpmVersion → Text → (FilePath → Option Text) → Type 0
    Served ver pass files =
        (user : Text) × (td : PoolData) × (content : Text) × IsOwner h.cfg.hosting.home_root
          s.webroot user
        × (pass ≡ text "unix:" ++ td.socket)
        × (td.run_user ≡ user)
        × (td.listen_owner ≡ user)
        × (render td ≡ ok content)
        × (files (other (pool_file_path ver.pools_dir domain)) ≡ some content)

    after_pool :
        (ver : PhpFpmVersion) (user : Text) (ini : Result Text) (w : World) (pass : Text)
        → infer_user_from_webroot h.cfg.hosting.home_root s.webroot ≡ some user
        → (pass_of (socket_path ver.sock_dir domain s.php_version) (
            ensure_pool env render ver.pools_dir ver.service ver.sock_dir domain s.php_version
              (pool_of h store s domain ver user db ini)
              w)).0
          ≡ ok pass
        → Served ver pass
            (pass_of (socket_path ver.sock_dir domain s.php_version) (
              ensure_pool env render ver.pools_dir ver.service ver.sock_dir domain s.php_version
                (pool_of h store s domain ver user db ini)
                w)).1.files
    unfolding pool_after is_none with_socket pool_of pool_data
    after_pool ver user ini w pass is_user e =
        let td : PoolData = pool_of h store s domain ver user db ini in
        let x : PoolAnswer × World =
          ensure_pool env render ver.pools_dir ver.service ver.sock_dir domain s.php_version td w in
        let (fine, is_pass) = pass_of-ok (socket_path ver.sock_dir domain s.php_version) x pass e in
        let (content, is_content) =
          ensure_pool-rendered ver.pools_dir ver.service ver.sock_dir domain s.php_version td w
            fine in
        (
          user,
          with_socket env render (socket_path ver.sock_dir domain s.php_version) td,
          content,
          infer_user_from_webroot-IsOwner h.cfg.hosting.home_root s.webroot user is_user,
          is_pass,
          refl,
          refl,
          is_content,
          pass_of-files h store s domain (socket_path ver.sock_dir domain s.php_version) x
                (other (pool_file_path ver.pools_dir domain))
              ∙ ensure_pool-content env render ver.pools_dir ver.service ver.sock_dir domain
                  s.php_version td content w is_content
              ∙ ground (arith, fine),
        )

    with_pool-Served :
        (ver : PhpFpmVersion) (user : Text) (w : World) (pass : Text)
        → infer_user_from_webroot h.cfg.hosting.home_root s.webroot ≡ some user
        → (with_pool h store s domain ver user db w).0 ≡ ok pass
        → Served ver pass (with_pool h store s domain ver user db w).1.files
    unfolding with_pool ◌>>=◌ try
    with_pool-Served ver user w pass is_user e =
        let x : Result Text × World = read_file env (other (overrides_path s)) w in
        after_pool ver user x.0 x.1 pass is_user e

    with_user-Served :
        (ver : PhpFpmVersion) (user : Option Text) (w : World) (pass : Text)
        → infer_user_from_webroot h.cfg.hosting.home_root s.webroot ≡ user
        → (with_user h store s domain ver user db w).0 ≡ ok pass
        → Served ver pass (with_user h store s domain ver user db w).1.files
    unfolding with_user fail
    with_user-Served ver none w pass is_user e = cc
    with_user-Served ver (some user) w pass is_user e = with_pool-Served ver user w pass is_user e

    php_pass-Served :
        (ver : PhpFpmVersion) (w : World) (pass : Text)
        → lookup text_eq s.php_version h.cfg.phpfpm.versions ≡ some ver
        → (php_pass h store s domain db w).0 ≡ ok pass
        → Served ver pass (php_pass h store s domain db w).1.files
    unfolding php_pass with_version
    php_pass-Served ver w pass is_ver e = rw is_ver (
        with_user-Served ver (infer_user_from_webroot h.cfg.hosting.home_root s.webroot) w pass refl
          (rw is_ver at e))

module _ {State : Type 0} (b : Builder State) (s : Site) (domain : Text) (db : State) where
  rest : Text → Io SiteTemplateData
  rest pass = do
    tls ← tls_files b domain
    proxy ← proxy_of b s db
    return (data_of b s domain pass tls proxy)

  build-after :
      (q : FilePath) (pass : Text) (w w' : World)
      → path_eq (other (fallback b domain (text "fullchain.pem"))) q ≡ false
      → path_eq (other (fallback b domain (text "privkey.pem"))) q ≡ false
      → pass_step b s domain db w ≡ (ok pass, w')
      → (build_template_data b s domain db w).1.files q ≡ w'.files q
  unfolding build_template_data rest ◌>>=◌
  build-after q pass w w' not_cert not_key e =
      ap (λ x. (bind_step x rest).1.files q) e
      ∙ (>>=-Keeps (tls_files-Keeps b q domain not_cert not_key)
            (λ tls. >>=-Keeps (proxy_of-Keeps b q s db) (λ proxy. return-Keeps _))).kept
          w'

  moved-Served :
      (ver : PhpFpmVersion) (pass : Text) (td : SiteTemplateData) (old new : FilePath → Option Text)
      → td.php.pass ≡ pass
      → new (other (pool_file_path ver.pools_dir domain))
        ≡ old (other (pool_file_path ver.pools_dir domain))
      → Served b.pools b.store s domain db ver pass old
      → Served b.pools b.store s domain db ver td.php.pass new
  moved-Served ver pass td old new is_pass same
        (user, td', content, is_user, socket, runs, listens, is_content, there) =
      (user, td', content, is_user, is_pass ∙ socket, runs, listens, is_content, same ∙ there)

  -- Where `buildTemplateData` returns data of a PHP site, nginx passes its requests to the socket of a pool
  -- whose file is in place as rendered, and which runs, with the socket its own, as the user whose
  -- directory under the root of the homes holds the webroot. The version's pool file is not one of the two
  -- files of the domain's self-signed certificate.
  pub build_template_data-Served :
      (ver : PhpFpmVersion) (w : World) (td : SiteTemplateData)
      → is_php s.mode ≡ true
      → lookup text_eq s.php_version b.pools.cfg.phpfpm.versions ≡ some ver
      → path_eq
          (other (fallback b domain (text "fullchain.pem")))
          (other (pool_file_path ver.pools_dir domain))
        ≡ false
      → path_eq
          (other (fallback b domain (text "privkey.pem")))
          (other (pool_file_path ver.pools_dir domain))
        ≡ false
      → (build_template_data b s domain db w).0 ≡ ok td
      → Served b.pools b.store s domain db ver td.php.pass
          (build_template_data b s domain db w).1.files
  unfolding data_of php_cfg
  build_template_data-Served ver w td is_php_site is_ver not_cert not_key e =
      let (pass, tls, proxy, is_pass, same) = build-parts b s domain db w td e in
      let q : FilePath = other (pool_file_path ver.pools_dir domain) in
      let steps : php_pass b.pools b.store s domain db w
          ≡ (ok pass, (php_pass b.pools b.store s domain db w).1) =
        rw is_php_site at is_pass in
      moved-Served ver pass td (php_pass b.pools b.store s domain db w).1.files
        (build_template_data b s domain db w).1.files
        (ap (λ x. x.php.pass) same ∙ rw is_php_site refl)
        (build-after q pass w (php_pass b.pools b.store s domain db w).1 not_cert not_key
          (rw is_php_site steps))
        (php_pass-Served b.pools b.store s domain db ver w pass is_ver (ap (λ x. x.0) steps))
