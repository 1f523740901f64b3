-- ===== src/Web/Session/Laws.antt =====
-- How long a session of internal/web/session.go lives.
use ngm.Base.{
  ℕ, ◌+◌, ◌≤◌, ◌≡◌, refl, true, false, List, [], ◌∷◌, Option, none, some, ltb, if◌then◌else◌, All,
  subst, sym, if_intro, arith,
}
use ngm.Base.Dict.{lookup, delete, insert, lookup-insert_same, lookup-delete_same}
use ngm.Text.{Text, text_eq}
use ngm.Text.Laws.{text_eq_refl, text_eq_iff}
use ngm.Web.Session.{
  Session, SessionStore, session_at, put, create, remove, get_found, get, encode_hex,
}

-- The calls of a session store; each has its time.
pub data Event : Type 0 where
  created : ℕ → Option (List ℕ) → ℕ → Text → Text → Event
  looked_up : ℕ → Text → Event
  removed : Text → Event

unfoldable pub step : SessionStore → Event → SessionStore
step s (created now random id name role) = (create now random id name role s).1
step s (looked_up now token) = (get now token s).1
step s (removed token) = remove token s

unfoldable pub run : SessionStore → List Event → SessionStore
run s [] = s
run s (e ∷ es) = run (step s e) es

-- The store holds nothing under the token, or a session that has expired by `now`.
abbrev pub IsDead : ℕ → Option Session → Type 0
IsDead now none = Unit
IsDead now (some sess) = ltb sess.expires now ≡ true

-- An event that makes no session with the token.
abbrev pub Spares : Text → Event → Type 0
Spares token (created now (some bytes) id name role) = text_eq token (encode_hex bytes) ≡ false
Spares token _ = Unit

lookup-delete :
    {A : Type 0} (t u : Text) (m : List (Text × A))
    → lookup text_eq t (delete text_eq u m) ≡ (if text_eq t u then none else lookup text_eq t m)
unfolding lookup delete
lookup-delete t u [] = ground arith
lookup-delete t u ((k, v) ∷ m) =
    ground (
      arith,
      lookup-delete t u m,
      text_eq_iff t u,
      text_eq_iff t k,
      text_eq_iff u k,
      text_eq_refl t,
    )

-- Events keep a dead token dead.
remove-IsDead :
    (now : ℕ) (t u : Text) (s : SessionStore)
    → IsDead now (lookup text_eq t s.entries)
    → IsDead now (lookup text_eq t (remove u s).entries)
unfolding remove
remove-IsDead now t u s h =
    subst (IsDead now) (sym (lookup-delete t u s.entries))
      (if_intro (IsDead now) (text_eq t u) none (lookup text_eq t s.entries) (λ _. tt) (λ _. h))

get_found-IsDead :
    (now at : ℕ) (t u : Text) (found : Option Session) (s : SessionStore)
    → IsDead now (lookup text_eq t s.entries)
    → IsDead now (lookup text_eq t (get_found at u found s).1.entries)
unfolding get_found
get_found-IsDead now at t u none s h = h
get_found-IsDead now at t u (some sess) s h =
    if_intro (λ (x : Option Session × SessionStore). IsDead now (lookup text_eq t x.1.entries))
      (ltb sess.expires at) (none, remove u s) (some sess, s) (λ _. remove-IsDead now t u s h)
      (λ _. h)

create-IsDead :
    (now at : ℕ) (t : Text) (random : Option (List ℕ)) (id : ℕ) (name role : Text)
    (s : SessionStore)
    → Spares t (created at random id name role)
    → IsDead now (lookup text_eq t s.entries)
    → IsDead now (lookup text_eq t (create at random id name role s).1.entries)
unfolding create put session_at insert lookup
create-IsDead now at t none id name role s k h = h
create-IsDead now at t (some bytes) id name role s k h =
    rw (k, lookup-delete t (encode_hex bytes) s.entries, k) h

step-IsDead :
    (now : ℕ) (t : Text) (e : Event) (s : SessionStore)
    → Spares t e
    → IsDead now (lookup text_eq t s.entries)
    → IsDead now (lookup text_eq t (step s e).entries)
unfolding step get
step-IsDead now t (created at random id name role) s k h =
    create-IsDead now at t random id name role s k h
step-IsDead now t (looked_up at u) s k h =
    get_found-IsDead now at t u (lookup text_eq u s.entries) s h
step-IsDead now t (removed u) s k h = remove-IsDead now t u s h

run-IsDead :
    (now : ℕ) (t : Text) (es : List Event) (s : SessionStore)
    → All (Spares t) es
    → IsDead now (lookup text_eq t s.entries)
    → IsDead now (lookup text_eq t (run s es).entries)
unfolding run
run-IsDead now t [] s k h = h
run-IsDead now t (e ∷ es) s k h = run-IsDead now t es (step s e) k.1 (step-IsDead now t e s k.0 h)

get_found-dead :
    (now later : ℕ) (t : Text) (found : Option Session) (s : SessionStore)
    → IsDead now found
    → now ≤ later
    → (get_found later t found s).0 ≡ none
unfolding get_found
get_found-dead now later t none s h k = refl
get_found-dead now later t (some sess) s h k = ground arith

-- Once the sessions under a token have expired, or there is none, no later look-up answers with one,
-- whatever calls come between, unless one of them makes a session with this token.
pub get-expired :
    (now later : ℕ) (t : Text) (s : SessionStore) (es : List Event)
    → IsDead now (lookup text_eq t s.entries)
    → All (Spares t) es
    → now ≤ later
    → (get later t (run s es)).0 ≡ none
unfolding get
get-expired now later t s es h k le =
    get_found-dead now later t (lookup text_eq t (run s es).entries) (run s es)
      (run-IsDead now t es s k h) le

-- After a logout the same: a token that was deleted is dead at any time.
pub get-removed :
    (later : ℕ) (t : Text) (s : SessionStore) (es : List Event)
    → All (Spares t) es
    → (get later t (run (remove t s) es)).0 ≡ none
unfolding remove
get-removed later t s es k =
    get-expired 0 later t (remove t s) es
      (subst (IsDead 0) (sym (lookup-delete_same text_eq t s.entries)) tt) k (omega arith)

-- A new session is found under its token until its time to live is over, and not after.
pub get-create :
    (now later : ℕ) (bytes : List ℕ) (id : ℕ) (name role : Text) (s : SessionStore)
    → (get later (encode_hex bytes) (create now (some bytes) id name role s).1).0
      ≡ (if ltb (now + s.ttl) later then none else (create now (some bytes) id name role s).0)
unfolding get create put session_at get_found
get-create now later bytes id name role s =
    rw
      (lookup-insert_same text_eq (encode_hex bytes) (session_at now bytes id name role s) s.entries
        (text_eq_refl (encode_hex bytes)))
      (ground arith)
