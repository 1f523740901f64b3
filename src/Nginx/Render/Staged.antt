-- ===== src/Nginx/Render/Staged.antt =====
-- What `RenderSiteToStaging` leaves in the files.
use ngm.Base.{
  ◌≡◌, refl, false, some, arith, Result, ok, ◌>>=◌, ◌>>◌, wrapping, return, Result-cases,
  Bool-cases, inl, inr,
}
use ngm.Text.{Text, text_eq}
use ngm.Text.Laws.{text_eq_refl}
use ngm.Os.Paths.{FilePath, staged, is_temp, path_eq}
use ngm.Os.{Env, World, call}
use ngm.Os.Atomic.{files-write_file_atomic}
use ngm.Os.Frame.{Keeps, >>=-Keeps, >>-Keeps, wrapping-Keeps, return-Keeps, call-Keeps, write-Keeps}
use ngm.Nginx.{SiteTemplateData}
use ngm.Nginx.Render.{Template, render_site_to_staging, execute, completed, check_site, lift}

module _ (env : Env) (template : Template) (site : SiteTemplateData) where
  lift-Keeps : {A : Type 0} {q : FilePath} (r : Result A) → Keeps q (lift r)
  lift-Keeps r = record { kept = λ w. refl }

  -- Rendering writes no file but the staged one of its domain.
  pub render-Keeps :
      {q : FilePath}
      → is_temp q ≡ false
      → path_eq (staged site.domain) q ≡ false
      → Keeps q (render_site_to_staging env template site)
  unfolding render_site_to_staging
  render-Keeps h k = >>-Keeps (lift-Keeps (check_site site)) (
      >>=-Keeps (lift-Keeps (execute template (completed site))) λ content.
        >>-Keeps (wrapping-Keeps _ (call-Keeps env))
          (>>-Keeps (write-Keeps env (staged site.domain) content h k) (return-Keeps _)))

  -- The content that is returned is the template's, and it is in the staged file.
  pub render-staged :
      (w : World) (c : Text)
      → (render_site_to_staging env template site w).0 ≡ ok c
      → (execute template (completed site) ≡ ok c)
        × ((render_site_to_staging env template site w).1.files (staged site.domain) ≡ some c)
  unfolding render_site_to_staging ◌>>=◌ ◌>>◌ wrapping return
  render-staged w c h = elim (Result-cases (check_site site)) [
    | inr (e, bad) ↦ ground arith
    | inl (u, good) ↦ elim (Result-cases (execute template (completed site))) [
      | inr (e, bad) ↦ ground arith
      | inl (content, run) ↦ elim (Bool-cases (text_eq site.domain site.domain)) [
        | inr no_self ↦ ground (arith, text_eq_refl site.domain)
        | inl self ↦ ground (
          arith,
          files-write_file_atomic env (staged site.domain) content (call env w).1
              (staged site.domain) refl,
        )
      ]
    ]
  ]
