-- ===== src/Web/Forms.antt =====
-- The forms of internal/web/server.go: what a request carries, how its fields are read, and what a
-- handler answers. The data of a rendered page is left out but for its message.
use ngm.Base.{
  ℕ, ◌-◌, ◌^◌, Bool, true, false, not, ◌&&◌, ◌||◌, List, [], ◌∷◌, Option, none, some, Error, Result,
  ok, err, ltb, ◌==◌, if◌then◌else◌, return, try, ◌>>=◌,
}
use ngm.Base.Dict.{lookup}
use ngm.Text.{Text, text, text_eq, is_empty, trim_space, to_lower, split, unix_lines}
use ngm.Text.Decimal.{is_digit, read_digits}
use ngm.Sites.Panel.{Act}
use ngm.Web.Login.{Method}

-- `form` is what `FormValue` reads, `query` the URL's.
pub record Form : Type 0 where
  pub method : Method
  pub form : List (Text × Text)
  pub query : List (Text × Text)
  -- `isHX`
  pub hx : Bool

-- `http.Error`, a page with its message, a part of a page, and `http.Redirect`.
pub data Reply : Type 0 where
  http_error : ℕ → Text → Reply
  page : Text → Text → Reply
  fragment : Text → Reply
  redirect : Text → Reply

unfoldable pub value_or_empty : Option Text → Text
value_or_empty none = []
value_or_empty (some v) = v

unfoldable pub form_value : Text → Form → Text
form_value name r = value_or_empty (lookup text_eq name r.form)

unfoldable pub query_value : Text → Form → Text
query_value name r = value_or_empty (lookup text_eq name r.query)

unfoldable pub parse_bool : Text → Bool → Bool
parse_bool v default' =
    let s = trim_space (to_lower v) in
    if is_empty s
    then default'
    else text_eq s (text "1")
      || (text_eq s (text "true") || (text_eq s (text "yes") || text_eq s (text "on")))

unfoldable pub at_most_int64 : Option ℕ → ℕ
at_most_int64 none = 0
at_most_int64 (some n) = if ltb n (2 ^ 63) then n else 2 ^ 63 - 1

-- `strconv.ParseInt(v, 10, 64)` without its error. A negative number is read as 0: there is no row with
-- either as its id.
unfoldable pub parse_id : Text → ℕ
parse_id [] = 0
parse_id (c ∷ s) =
    if c == b'-'
    then 0
    else at_most_int64 (if c == b'+' then read_digits 0 s else read_digits 0 (c ∷ s))

unfoldable pub full_lines : List Text → List Text
full_lines [] = []
full_lines (line ∷ lines) =
    let rest = full_lines lines in
    if is_empty (trim_space line) then rest else trim_space line ∷ rest

unfoldable pub split_lines : Text → List Text
split_lines s = full_lines (split b'\n' (unix_lines s))

unfoldable pub all_digits : Text → Bool
all_digits [] = true
all_digits (c ∷ s) = is_digit c && all_digits s

-- The digits in front, and what follows them.
unfoldable pub after_digits : Text → Text
after_digits [] = []
after_digits (c ∷ s) = let rest = after_digits s in if is_digit c then rest else c ∷ s

unfoldable pub starts_with_digit : Text → Bool
starts_with_digit [] = false
starts_with_digit (c ∷ s) = is_digit c

unfoldable pub is_one_of : Text → List Text → Bool
is_one_of s [] = false
is_one_of s (t ∷ ts) = text_eq s t || is_one_of s ts

-- `reNginxSize`: digits, and one of kKmMgG or nothing.
unfoldable pub is_nginx_size : Text → Bool
is_nginx_size s =
    starts_with_digit s
    && is_one_of (after_digits s)
        ([] ∷ text "k" ∷ text "K" ∷ text "m" ∷ text "M" ∷ text "g" ∷ text "G" ∷ [])

-- `reNginxTime`
unfoldable pub is_nginx_time : Text → Bool
is_nginx_time s =
    starts_with_digit s
    && is_one_of (after_digits s) ([] ∷ text "ms" ∷ text "s" ∷ text "m" ∷ text "h" ∷ [])

-- The message is blank where all three are accepted.
unfoldable pub validate_nginx_knobs : Text → Text → Text → Text
validate_nginx_knobs client_max php_read php_send =
    if not (is_empty client_max) && not (is_nginx_size client_max)
    then text "Invalid Client Max Body Size. Examples: 32M, 128M, 1G (leave blank for default)."
    else if not (is_empty php_read) && not (is_nginx_time php_read)
    then text "Invalid PHP Read Timeout. Examples: 60s, 300s, 5m (leave blank for default)."
    else if not (is_empty php_send) && not (is_nginx_time php_send)
    then text "Invalid PHP Send Timeout. Examples: 60s, 300s, 5m (leave blank for default)."
    else []

-- `if err != nil { … return }`: the error is answered, or the handler goes on.
unfoldable pub followed : {A : Type 0} → (Error → Reply) → (A → Act Reply) → Result A → Act Reply
followed refused next (ok a) = next a
followed refused next (err e) = return (refused e)

unfoldable pub attempt : {A : Type 0} → Act A → (Error → Reply) → (A → Act Reply) → Act Reply
attempt m refused next = do r ← try m; followed refused next r

-- `http.Error(w, err.Error(), code)`
unfoldable pub answer_error : ℕ → Error → Reply
answer_error code e = http_error code e.message

abbrev pub method_not_allowed : Reply
unfolding text
method_not_allowed = http_error 405 (text "method not allowed")

abbrev pub forbidden : Reply
unfolding text
forbidden = http_error 403 (text "forbidden")
