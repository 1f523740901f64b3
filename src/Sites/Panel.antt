-- ===== src/Sites/Panel.antt =====
-- The state that internal/app/site.go works on, the database beside the files, and what the host and
-- the rest of the program do for it.
use ngm.Base.{
  ℕ, ◌≡◌, refl, subst, ◌∙◌, Bool, true, false, List, Option, Error, Result, ok, err, M,
  if◌then◌else◌, return, fail, bind_step, ◌>>=◌, ◌>>◌,
}
use ngm.Text.{Text}
use ngm.Os.{Env, Io, World}
use ngm.Config.{Config}
use ngm.Nginx.{Manager}
use ngm.Dns.{Provider}
use ngm.Store.{Site}
use ngm.Store.Db.{Db, Sql}

pub record Panel : Type 0 where
  pub db : Db
  pub world : World

abbrev pub Act : Type 0 → Type 0
Act A = M Panel A

-- How `CertIssue` ends: the second is `bootstrap.ErrProvisionInitNotCompleted`.
pub data CertEnd : Type 0 where
  issued : CertEnd
  not_ready : CertEnd
  not_issued : Error → CertEnd

-- The functions of internal/users and `CertIssue`, `Apply` of the application, as arguments.
pub record SiteHost : Type 0 where
  pub fault : ℕ → Option Text
  pub env : Env
  pub cfg : Config
  pub manager : Manager
  pub dns : Option Provider
  pub ensure_system_user : Text → Text → Io (Unit {0})
  pub ensure_site_dirs : Text → Text → Text → Text → Io (Unit {0})
  pub chown_path : Text → Text → Text → Io (Unit {0})
  pub apply : Text → Act (Unit {0})
  pub cert_issue : Text → Panel → CertEnd × Panel

unfoldable pub on_db : {A : Type 0} → Sql A → Act A
on_db m p = let (r, db) = m p.db in (r, record p { db = db })

-- A query for one row, whose outcome is a value.
unfoldable pub on_row : {A : Type 0} → (Db → A × Db) → Act A
on_row m p = let (r, db) = m p.db in (ok r, record p { db = db })

unfoldable pub on_files : {A : Type 0} → Io A → Act A
on_files m p = let (r, w) = m p.world in (r, record p { world = w })

unfoldable pub lift : {A : Type 0} → Result A → Act A
lift (ok a) = return a
lift (err e) = fail e

unfoldable pub when : Bool → Act (Unit {0}) → Act (Unit {0})
when b m = if b then m else return tt

-- What an action never changes: the rows of the sites
-- and the next id of one.
abbrev pub site_table : Db → List Site × ℕ
site_table db = (db.sites, db.next_site)

pub record KeepsSites {A : Type 0} (m : Act A) : Type 0 where
  pub kept : (p : Panel) → site_table (m p).1.db ≡ site_table p.db

module _ {A B : Type 0} where
  bind_kept :
      (p : Panel) (f : A → Act B) (x : Result A × Panel)
      → ((a : A) → KeepsSites (f a))
      → site_table x.1.db ≡ site_table p.db
      → site_table (bind_step x f).1.db ≡ site_table p.db
  bind_kept p f (ok a, p') k e = (k a).kept p' ∙ e
  bind_kept p f (err e', p') k e = e

  pub >>=-KeepsSites :
      {m : Act A} {f : A → Act B}
      → KeepsSites m
      → ((a : A) → KeepsSites (f a))
      → KeepsSites (m >>= f)
  unfolding ◌>>=◌
  >>=-KeepsSites {m} {f} h k = record { kept = λ p. bind_kept p f (m p) k (h.kept p) }

  pub >>-KeepsSites : {m : Act A} {f : Act B} → KeepsSites m → KeepsSites f → KeepsSites (m >> f)
  unfolding ◌>>◌
  >>-KeepsSites {m} {f} h k = record { kept = λ p. bind_kept p (λ _. f) (m p) (λ _. k) (h.kept p) }

module _ {A : Type 0} where
  pub return-KeepsSites : (a : A) → KeepsSites (return a)
  unfolding return
  return-KeepsSites a = record { kept = λ p. refl }

  pub fail-KeepsSites : (e : Error) → KeepsSites (fail {A = A} e)
  unfolding fail
  fail-KeepsSites e = record { kept = λ p. refl }

  pub lift-KeepsSites : (r : Result A) → KeepsSites (lift r)
  unfolding lift
  lift-KeepsSites (ok a) = return-KeepsSites a
  lift-KeepsSites (err e) = fail-KeepsSites e

  pub if-KeepsSites :
      (b : Bool) {m n : Act A} → KeepsSites m → KeepsSites n → KeepsSites (if b then m else n)
  if-KeepsSites true h k = h
  if-KeepsSites false h k = k

  pub on_files-KeepsSites : (m : Io A) → KeepsSites (on_files m)
  unfolding on_files
  on_files-KeepsSites m = record { kept = λ p. refl }

  pub on_db-KeepsSites :
      (m : Sql A) → ((db : Db) → site_table (m db).1 ≡ site_table db) → KeepsSites (on_db m)
  unfolding on_db
  on_db-KeepsSites m h = record { kept = λ p. h p.db }

  pub on_row-KeepsSites :
      (m : Db → A × Db) → ((db : Db) → site_table (m db).1 ≡ site_table db) → KeepsSites (on_row m)
  unfolding on_row
  on_row-KeepsSites m h = record { kept = λ p. h p.db }

-- What every answer of an action satisfies.
pub record Ensures {A : Type 0} (P : A → Type 0) (m : Act A) : Type 0 where
  pub ensured : (p : Panel) (a : A) → (m p).0 ≡ ok a → P a

module _ {A B : Type 0} {Q : A → Type 0} {P : B → Type 0} where
  bind_ensured :
      (f : A → Act B) (x : Result A × Panel)
      → ((a : A) → x.0 ≡ ok a → Q a)
      → ((a : A) → Q a → Ensures P (f a))
      → (b : B) → (bind_step x f).0 ≡ ok b
      → P b
  bind_ensured f (ok a, p) h k b e = (k a (h a refl)).ensured p b e
  bind_ensured f (err e', p) h k b e = cc

  pub >>=-Ensures :
      {m : Act A} {f : A → Act B}
      → Ensures Q m
      → ((a : A) → Q a → Ensures P (f a))
      → Ensures P (m >>= f)
  unfolding ◌>>=◌
  >>=-Ensures {m} {f} h k = record { ensured = λ p. bind_ensured f (m p) (h.ensured p) k }

pub any-Ensures : {A : Type 0} (m : Act A) → Ensures (λ _. Unit {0}) m
any-Ensures m = record { ensured = λ p a e. tt }

pub lift-Ensures :
    {A : Type 0} (P : A → Type 0) (r : Result A) → ((a : A) → r ≡ ok a → P a) → Ensures P (lift r)
unfolding lift return fail
lift-Ensures P (ok a) h = record { ensured = λ p a' e. h a' e }
lift-Ensures P (err e') h = record { ensured = λ p a' e. h a' e }

pub return-Ensures : {A : Type 0} {P : A → Type 0} (a : A) → P a → Ensures P (return a)
unfolding return
return-Ensures {P = P} a h = record { ensured = λ p a' e. let same : a ≡ a' = cc in subst P same h }

pub >>-Ensures :
    {A B : Type 0} {P : B → Type 0} (m : Act A) {f : Act B} → Ensures P f → Ensures P (m >> f)
unfolding ◌>>◌ ◌>>=◌
>>-Ensures m k = >>=-Ensures (any-Ensures m) (λ _ _. k)
