-- ===== src/Web/Sites/Laws.antt =====
-- What a request for a site that the session may not see does in internal/web/server.go.
use ngm.Base.{
  ℕ, ◌≡◌, refl, subst, sym, ap, ◌∙◌, Bool, true, false, Option, none, some, Error, Result, ok, err,
  if◌then◌else◌, Option-cases, Bool-cases, inl, inr, ◌⊎◌, errorf, arith, bind_step, return, fail,
  try, ◌>>=◌,
}
use ngm.Text.{Text, text, text_eq, is_empty, trim_space, to_lower}
use ngm.Store.{User, Site, PanelUser}
use ngm.Store.Db.{Db, Lookup, found, no_rows, failed, query_row, of_option, to_result, tick_db}
use ngm.Store.PanelUsers.{get_panel_user_by_username}
use ngm.Store.Db.Users.{get_user_by_id, user_with_id}
use ngm.Store.Db.PanelUsers.{panel_user_named}
use ngm.Store.Db.Sites.{get_site_by_domain, site_of_domain}
use ngm.Sites.Panel.{Panel, Act, SiteHost, on_row, lift}
use ngm.Sites.Delete.{site_get, site_by_domain, site_disable, site_enable, site_delete}
use ngm.Web.Session.{Session}
use ngm.Web.Access.{Directory, panel_user_of, site_owner, owner_visible, site_visible_to_session}
use ngm.Web.Login.{Method, method_get, method_post, method_other}
use ngm.Web.Forms.{Form, Reply, forbidden}
use ngm.Web.Sites.{
  field, visible, site_seen, user_seen, panel_user_seen, if_seen, if_visible, on_site, post_only,
  handle_site_disable, handle_site_enable, handle_site_delete, handle_site_edit, edit_by,
}

-- The panel but for the number of calls that were made.
abbrev pub at_rest : Panel → Panel
at_rest p = record p { db = record p.db { clock = 0 } }

-- Code that only reads.
record Reads {A : Type 0} (m : Act A) : Type 0 where
  kept : (p : Panel) → at_rest (m p).1 ≡ at_rest p

module _ {A B : Type 0} where
  bind-Reads :
      (p : Panel) (f : A → Act B) (x : Result A × Panel)
      → ((a : A) → Reads (f a))
      → at_rest x.1 ≡ at_rest p
      → at_rest (bind_step x f).1 ≡ at_rest p
  bind-Reads p f (ok a, p') k e = (k a).kept p' ∙ e
  bind-Reads p f (err e', p') k e = e

  >>=-Reads : {m : Act A} {f : A → Act B} → Reads m → ((a : A) → Reads (f a)) → Reads (m >>= f)
  unfolding ◌>>=◌
  >>=-Reads {m} {f} h k = record { kept = λ p. bind-Reads p f (m p) k (h.kept p) }

module _ {A : Type 0} where
  return-Reads : (a : A) → Reads (return a)
  unfolding return
  return-Reads a = record { kept = λ p. refl }

  fail-Reads : (e : Error) → Reads (fail {A = A} e)
  unfolding fail
  fail-Reads e = record { kept = λ p. refl }

  try-Reads : {m : Act A} → Reads m → Reads (try m)
  unfolding try
  try-Reads h = record { kept = h.kept }

  if-Reads : (b : Bool) {m n : Act A} → Reads m → Reads n → Reads (if b then m else n)
  if-Reads true h k = h
  if-Reads false h k = k

  lift-Reads : (r : Result A) → Reads (lift r)
  unfolding lift
  lift-Reads (ok a) = return-Reads a
  lift-Reads (err e) = fail-Reads e

  row-Reads : (fault : ℕ → Option Text) (f : Db → Option A) → Reads (on_row (query_row fault f))
  unfolding on_row query_row
  row-Reads fault f = record { kept = λ p. ground arith }

-- The tables as the look-ups of `siteVisibleToSession`.
abbrev pub directory : Db → Directory
directory db = record {
  site_get = λ d.
      if is_empty (to_lower (trim_space d))
      then none
      else site_of_domain (to_lower (trim_space d)) db.sites;
  get_user_by_id = λ id. user_with_id id db.users;
  users = db.panel_users;
}

module _ (host : SiteHost) (sess : Session) where
  open host use {fault}

  site_get-Reads : (domain : Text) → Reads (site_get host domain)
  unfolding site_get site_by_domain get_site_by_domain
  site_get-Reads domain =
      if-Reads _ (fail-Reads _) (>>=-Reads (row-Reads fault _) (λ row. lift-Reads (to_result row)))

  user_seen-Reads : (u : Lookup User) → Reads (user_seen host sess u)
  unfolding user_seen panel_user_named
  user_seen-Reads (found u) = >>=-Reads (row-Reads fault _) (λ pu. return-Reads _)
  user_seen-Reads no_rows = return-Reads false
  user_seen-Reads (failed e) = return-Reads false

  site_seen-Reads : (s : Result Site) → Reads (site_seen host sess s)
  unfolding site_seen get_user_by_id
  site_seen-Reads (err e) = return-Reads false
  site_seen-Reads (ok s) = >>=-Reads (row-Reads fault _) user_seen-Reads

  visible-Reads : (domain : Text) → Reads (visible host sess domain)
  unfolding visible
  visible-Reads domain =
      if-Reads _ (return-Reads true) (>>=-Reads (try-Reads (site_get-Reads domain)) site_seen-Reads)

  -- The answer is this one, or no, where a call of the database failed.
  abbrev Answers : Result Bool → Bool → Type 0
  Answers x b = (x ≡ ok b) ⊎ (x ≡ ok false)

  row-cases :
      {A : Type 0} (f : Db → Option A) (p : Panel)
      → (on_row (query_row fault f) p ≡ (ok (of_option (f p.db)), record p { db = tick_db p.db }))
        ⊎ ((e : Error) × (on_row (query_row fault f) p
              ≡ (ok (failed e), record p { db = tick_db p.db })))
  unfolding on_row query_row
  row-cases f p = elim (Option-cases (fault p.db.clock)) [
    | inl e ↦ inl (rw (e, query_row) refl)
    | inr (m, e) ↦ inr (errorf m, rw (e, query_row) refl)
  ]

  seen-owner :
      (o : Option PanelUser) → panel_user_seen host sess (of_option o) ≡ owner_visible sess o
  unfolding panel_user_seen of_option owner_visible
  seen-owner none = refl
  seen-owner (some u) = refl

  user_seen-Answers :
      (o : Option User) (p : Panel)
      → Answers
          (user_seen host sess (of_option o) p).0
          (owner_visible sess (panel_user_of (directory p.db) o))
  unfolding user_seen panel_user_named panel_user_of of_option owner_visible ◌>>=◌ return
      panel_user_seen
  user_seen-Answers none p = inl refl
  user_seen-Answers (some u) p =
      elim (row-cases (λ db. get_panel_user_by_username (trim_space u.username) db.panel_users) p) [
        | inl e ↦ inl (rw e (ap ok (seen-owner _)))
        | inr (e', e) ↦ inr (rw e refl)
      ]

  site_seen-Answers :
      (s : Site) (p : Panel)
      → Answers
          (site_seen host sess (ok s) p).0
          (owner_visible sess (site_owner (directory p.db) (some s)))
  unfolding site_seen site_owner get_user_by_id ◌>>=◌ user_seen return
  site_seen-Answers s p = elim (row-cases (λ db. user_with_id s.user_id db.users) p) [
    | inl e ↦
        rw e
          (user_seen-Answers (user_with_id s.user_id p.db.users) (record p { db = tick_db p.db }))
    | inr (e', e) ↦ inr (rw e refl)
  ]

  found_site-Answers :
      (o : Option Site) (p : Panel)
      → Answers
          ((try (lift (to_result (of_option o))) >>= site_seen host sess) p).0
          (owner_visible sess (site_owner (directory p.db) o))
  unfolding ◌>>=◌ try lift return fail to_result of_option site_seen site_owner owner_visible
  found_site-Answers none p = inl refl
  found_site-Answers (some s) p = site_seen-Answers s p

  visible-Answers :
      (domain : Text) (p : Panel)
      → Answers
          (visible host sess domain p).0
          (site_visible_to_session (directory p.db) sess domain)
  unfolding visible site_visible_to_session return ◌>>=◌ try site_get site_by_domain
      get_site_by_domain fail site_seen site_owner owner_visible lift to_result
  visible-Answers domain p = elim (Bool-cases (text_eq sess.role (text "admin"))) [
    | inl e ↦ rw e (inl refl)
    | inr e ↦ elim (Bool-cases (is_empty (to_lower (trim_space domain)))) [
      | inl e' ↦ rw (e, e') (inl refl)
      | inr e' ↦ elim (row-cases (λ db. site_of_domain (to_lower (trim_space domain)) db.sites) p) [
        | inl f ↦
            rw (e, e', f)
              (found_site-Answers (site_of_domain (to_lower (trim_space domain)) p.db.sites)
                (record p { db = tick_db p.db }))
        | inr (e'', f) ↦ rw (e, e', f) (inr refl)
      ]
    ]
  ]

  -- The answer `forbidden`, with nothing changed.
  abbrev pub Refused : Act Reply → Panel → Type 0
  Refused m p = ((m p).0 ≡ ok forbidden) × (at_rest (m p).1 ≡ at_rest p)

  hidden-answer : (x : Result Bool) (b : Bool) → Answers x b → b ≡ false → x ≡ ok false
  hidden-answer x b (inl e) h = e ∙ ap ok h
  hidden-answer x b (inr e) h = e

  refused-after :
      (next : Act Reply) (x : Result Bool × Panel) (p : Panel)
      → x.0 ≡ ok false
      → at_rest x.1 ≡ at_rest p
      → ((bind_step x (if_seen host next)).0 ≡ ok forbidden)
        × (at_rest (bind_step x (if_seen host next)).1 ≡ at_rest p)
  unfolding if_seen return
  refused-after next (ok true, q) p h k = cc
  refused-after next (ok false, q) p h k = (refl, k)
  refused-after next (err e, q) p h k = cc

  hidden-Refused :
      (domain : Text) (next : Act Reply) (p : Panel)
      → site_visible_to_session (directory p.db) sess domain ≡ false
      → Refused (if_visible host sess domain next) p
  unfolding if_visible ◌>>=◌
  hidden-Refused domain next p h =
      refused-after next (visible host sess domain p) p
        (hidden-answer (visible host sess domain p).0 _ (visible-Answers domain p) h)
        ((visible-Reads domain).kept p)

  posted : (next : Act Reply) (m : Method) → m ≡ method_post → post_only host m next ≡ next
  unfolding post_only
  posted next method_get h = cc
  posted next method_post h = refl
  posted next method_other h = cc

  on_site-Refused :
      {A : Type 0} (r : Form) (act : Text → Act A) (p : Panel)
      → r.method ≡ method_post
      → site_visible_to_session (directory p.db) sess (field (text "domain") r) ≡ false
      → Refused (on_site host sess r act) p
  unfolding on_site
  on_site-Refused r act p m h =
      subst (λ a. Refused a p) (sym (posted _ r.method m))
        (hidden-Refused (field (text "domain") r) _ p h)

  -- Whatever calls of the database fail, a POST to edit, disable, enable or delete a site that the
  -- session may not see is forbidden and changes neither a row nor a file.
  pub hidden_site-Refused :
      (r : Form) (p : Panel)
      → r.method ≡ method_post
      → site_visible_to_session (directory p.db) sess (field (text "domain") r) ≡ false
      → Refused (handle_site_edit host sess r) p
        × Refused (handle_site_disable host sess r) p
        × Refused (handle_site_enable host sess r) p
        × Refused (handle_site_delete host sess r) p
  unfolding handle_site_edit edit_by handle_site_disable handle_site_enable handle_site_delete
  hidden_site-Refused r p m h = (
    subst (λ n. Refused (edit_by host n sess r) p) (sym m)
        (hidden-Refused (field (text "domain") r) _ p h),
    on_site-Refused r (site_disable host) p m h,
    on_site-Refused r (site_enable host) p m h,
    on_site-Refused r (site_delete host) p m h,
  )
