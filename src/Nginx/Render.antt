-- ===== src/Nginx/Render.antt =====
-- `RenderSiteToStaging` of internal/nginx/manager.go. The embedded site.tmpl and text/template, which
-- executes it, are a parameter.
pub mod Staged
use ngm.Base.{
  Bool, true, false, not, ◌&&◌, ◌||◌, ◌++◌, if◌then◌else◌, Result, ok, err, M, errorf, wrap,
  wrapping, return, ◌>>=◌, ◌>>◌,
}
use ngm.Text.{Text, text, is_empty}
use ngm.Names.{make_upstream_key}
use ngm.Os.Paths.{staged}
use ngm.Os.{Env, Io, World, call, write_file_atomic}
use ngm.Nginx.{SiteTemplateData, or_default}

-- The embedded site.tmpl as text/template parses it, or the error of parsing.
abbrev pub Template : Type 0
Template = Result (SiteTemplateData → Result Text)

abbrev pub execute : Template → SiteTemplateData → Result Text
execute (err e) site = err (wrap (text "parse template: ") e)
execute (ok run) site = elim (run site) [
  | ok content ↦ ok content
  | err e ↦ err (wrap (text "execute template: ") e)
]

abbrev pub lift {ℓ} : {A : Type ℓ} → Result A → M World A
lift r w = (r, w)

-- The data as the template is given it: the mode's default and the upstream's key are filled in.
unfoldable pub completed : SiteTemplateData → SiteTemplateData
unfolding make_upstream_key
completed site = record site {
  mode = or_default site.mode (text "php");
  upstream_key = make_upstream_key site.domain;
}

unfoldable pub check_site : SiteTemplateData → Result (Unit {0})
check_site site =
    if is_empty site.domain
    then err (errorf (text "site.Domain is required"))
    else if is_empty site.acme_webroot
    then err (errorf (text "site.ACMEWebroot is required"))
    else if is_empty site.webroot
    then err (errorf (text "site.Webroot is required"))
    else if is_empty site.tls_cert || is_empty site.tls_key
    then err (errorf (text "site TLSCert/TLSKey are required"))
    else ok tt

module _ (env : Env) (template : Template) where
  unfoldable pub render_site_to_staging : SiteTemplateData → Io Text
  unfolding call
  render_site_to_staging site = do
    lift (check_site site)
    content ← lift (execute template (completed site))
    wrapping (text "mkdir " ++ env.dir_text (staged site.domain)) (call env)
    write_file_atomic env (staged site.domain) content
    return content
