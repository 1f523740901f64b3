-- ===== src/Sites/Add/Finish.antt =====
-- What `SiteAdd` of internal/app/site.go does after it wrote a row: none of it is an error.
use ngm.Base.{
  ℕ, ◌≡◌, refl, Bool, true, false, List, [], ◌∷◌, Result, ok, err, is_ok, bind_step, if◌then◌else◌,
  return, try, ◌>>=◌, ◌>>◌,
}
use ngm.Text.{Text, is_empty, trim_space}
use ngm.Store.{Site}
use ngm.Sites.Panel.{Panel, Act, SiteHost}
use ngm.Sites.Checks.{SiteAddRequest}
use ngm.Sites.Add.{finish, add_targets, check_targets, apply_site, issue_cert, issued_cert}

pub record NeverFails {A : Type 0} (m : Act A) : Type 0 where
  pub fine : (p : Panel) → is_ok (m p).0 ≡ true

module _ {A B : Type 0} where
  bind_fine :
      (f : A → Act B) (x : Result A × Panel)
      → is_ok x.0 ≡ true
      → ((a : A) → NeverFails (f a))
      → is_ok (bind_step x f).0 ≡ true
  bind_fine f (ok a, p) h k = (k a).fine p
  bind_fine f (err e, p) h k = cc

  pub >>=-NeverFails :
      {m : Act A} {f : A → Act B}
      → NeverFails m
      → ((a : A) → NeverFails (f a))
      → NeverFails (m >>= f)
  unfolding ◌>>=◌
  >>=-NeverFails {m} {f} h k = record { fine = λ p. bind_fine f (m p) (h.fine p) k }

  pub >>-NeverFails : {m : Act A} {f : Act B} → NeverFails m → NeverFails f → NeverFails (m >> f)
  unfolding ◌>>◌
  >>-NeverFails {m} {f} h k = record { fine = λ p. bind_fine (λ _. f) (m p) (h.fine p) (λ _. k) }

module _ {A : Type 0} where
  pub return-NeverFails : (a : A) → NeverFails (return a)
  unfolding return
  return-NeverFails a = record { fine = λ p. refl }

  pub try-NeverFails : (m : Act A) → NeverFails (try m)
  unfolding try
  try-NeverFails m = record { fine = λ p. refl }

  pub if-NeverFails :
      (b : Bool) {m n : Act A} → NeverFails m → NeverFails n → NeverFails (if b then m else n)
  if-NeverFails true h k = h
  if-NeverFails false h k = k

module _ (host : SiteHost) where
  add_targets-NeverFails : (id : ℕ) (lines : List Text) → NeverFails (add_targets host id lines)
  unfolding add_targets
  add_targets-NeverFails id [] = return-NeverFails []
  add_targets-NeverFails id (line ∷ lines) =
      if-NeverFails (is_empty (trim_space line)) (add_targets-NeverFails id lines) (
        >>=-NeverFails (try-NeverFails _)
          λ added. >>=-NeverFails (add_targets-NeverFails id lines) λ more. return-NeverFails _)

  check_targets-NeverFails : (b : Bool) (id : ℕ) → NeverFails (check_targets host b id)
  unfolding check_targets
  check_targets-NeverFails false id = return-NeverFails _
  check_targets-NeverFails true id = >>=-NeverFails (try-NeverFails _) λ t. return-NeverFails _

  apply_site-NeverFails : (b : Bool) (d : Text) → NeverFails (apply_site host b d)
  unfolding apply_site
  apply_site-NeverFails false d = return-NeverFails _
  apply_site-NeverFails true d = >>=-NeverFails (try-NeverFails _) λ r. return-NeverFails _

  issue_cert-NeverFails :
      (skip apply_now applied : Bool) (d : Text)
      → NeverFails (issue_cert host skip apply_now applied d)
  unfolding issue_cert issued_cert
  issue_cert-NeverFails true a b d = return-NeverFails _
  issue_cert-NeverFails false false b d = return-NeverFails _
  issue_cert-NeverFails false true false d = return-NeverFails _
  issue_cert-NeverFails false true true d = record { fine = λ p. refl }

  finish-NeverFails :
      (req : SiteAddRequest) (s stored : Site) → NeverFails (finish host req s stored)
  unfolding finish
  finish-NeverFails req s stored = >>-NeverFails (try-NeverFails _) (
      >>=-NeverFails
        (if-NeverFails _ (add_targets-NeverFails stored.id req.proxy_targets)
          (return-NeverFails []))
        λ added.
          >>=-NeverFails
            (if-NeverFails _ (check_targets-NeverFails true stored.id) (return-NeverFails _))
            λ blocked. >>=-NeverFails (apply_site-NeverFails blocked.1 s.domain) λ applied.
              >>=-NeverFails (issue_cert-NeverFails req.skip_cert blocked.1 applied.1 s.domain)
                λ certs. return-NeverFails _)

  -- Whatever fails once the row is there, `SiteAdd` returns no error.
  pub finish-is_ok :
      (req : SiteAddRequest) (s stored : Site) (p : Panel)
      → is_ok (finish host req s stored p).0 ≡ true
  finish-is_ok req s stored p = (finish-NeverFails req s stored).fine p
