-- ===== src/Handler/Environment/Laws.antt =====
-- What a client cannot change in the environment, and where its headers are found.
use nawa.Common.{
  ◌≡◌, refl, sym, ap, ◌∙◌, Bool, true, false, [], ◌∷◌, ◌++◌, Option, none, some, if◌then◌else◌, inl,
  inr, Option-cases, Bytes, codes, beq, find_first_of, substr, arith,
}
use nawa.Common.Table.{text_eq, lookup, assign, insert_new, lookup-assign, lookup-insert_new}
use nawa.Util.Strings.{to_lowercase}
use nawa.Request.Env
use nawa.Config.{Config}
use nawa.Handler.Environment.{
  Variables, HttpRequest, server_variables, add_named, add_headers, touch, add_urls,
  http_environment, variable_name, add_parameters, fastcgi_environment, base_url, parameter,
}

abbrev or_else {ℓ} : {A : Type ℓ} → Option A → Option A → Option A
or_else none b = b
or_else (some a) b = some a

or_else-insert_new :
    (k j v : Bytes) (m : Variables)
    → lookup j (insert_new k v m) ≡ or_else (lookup j m) (if beq k j then some v else none)
or_else-insert_new k j v m = elim (Option-cases (lookup j m)) [
  | inl e ↦ rw (lookup-insert_new k j v m, e) refl
  | inr (w, e) ↦ rw (lookup-insert_new k j v m, e) refl
]

or_else_assoc : (a b c : Option Bytes) → or_else (or_else a b) c ≡ or_else a (or_else b c)
or_else_assoc none b c = refl
or_else_assoc (some x) b c = refl

or_else_four :
    (a b c d : Option Bytes)
    → or_else (or_else (or_else a b) c) d ≡ or_else a (or_else b (or_else c d))
or_else_four none none c d = refl
or_else_four none (some x) c d = refl
or_else_four (some x) b c d = refl

or_else-none : (a : Option Bytes) → or_else a none ≡ a
or_else-none none = refl
or_else-none (some x) = refl

or_else-if :
    (b : Bool) (v : Bytes) (o : Option Bytes)
    → or_else (if b then some v else none) o ≡ (if b then some v else o)
or_else-if true v o = refl
or_else-if false v o = refl

-- The value of the first entry with a name, after renaming.
unfoldable pub first_named : (Bytes → Bytes) → Bytes → Variables → Option Bytes
first_named rename j [] = none
first_named rename j ((k, v) ∷ entries) =
    let rest = first_named rename j entries in if beq (rename k) j then some v else rest

lookup-add_named :
    (rename : Bytes → Bytes) (j : Bytes) (entries env : Variables)
    → lookup j (add_named rename entries env)
      ≡ or_else (lookup j env) (first_named rename j entries)
unfolding add_named first_named
lookup-add_named rename j [] env = sym (or_else-none (lookup j env))
lookup-add_named rename j ((k, v) ∷ entries) env =
    lookup-add_named rename j entries (insert_new (rename k) v env)
    ∙ ap (λ o. or_else o (first_named rename j entries)) (or_else-insert_new (rename k) j v env)
    ∙ or_else_assoc (lookup j env) (if beq (rename k) j then some v else none)
        (first_named rename j entries)
    ∙ ap (or_else (lookup j env)) (or_else-if (beq (rename k) j) v (first_named rename j entries))

lookup-touch :
    (k j : Bytes) (m : Variables)
    → lookup j (touch k m) ≡ or_else (lookup j m) (if beq k j then some [] else none)
unfolding touch
lookup-touch k j m = or_else-insert_new k j [] m

-- The variables that describe the URL.
unfoldable pub url_variable : Bytes → Bytes → Bytes → Option Bytes
url_variable base uri j =
    if beq (codes "FULL_URL_WITHOUT_QS") j
    then some (base ++ substr uri 0 (find_first_of b'?' uri))
    else if beq (codes "FULL_URL_WITH_QS") j
    then some (base ++ uri)
    else if beq (codes "BASE_URL") j
    then some base
    else none

lookup-add_urls :
    (base uri j : Bytes) (m : Variables)
    → lookup j (add_urls base uri m) ≡ or_else (url_variable base uri j) (lookup j m)
unfolding add_urls url_variable
lookup-add_urls base uri j m =
    let a = codes "FULL_URL_WITHOUT_QS" in
    let b = codes "FULL_URL_WITH_QS" in
    let c = codes "BASE_URL" in
    ground (
      arith,
      lookup-assign a j (base ++ substr uri 0 (find_first_of b'?' uri))
          (assign b (base ++ uri) (assign c base m)),
      lookup-assign b j (base ++ uri) (assign c base m),
      lookup-assign c j base m,
    )

abbrev pub default_empty : Bytes → Bytes → Option Bytes
default_empty name j = if beq name j then some [] else none

no_host :
    (r : HttpRequest) (config : Config) → lookup (codes "host") (server_variables r config) ≡ none
unfolding server_variables lookup beq
no_host r config = refl

empty_default : (o : Option Bytes) → Env.or_empty (or_else o (some [])) ≡ Env.or_empty o
empty_default none = refl
empty_default (some v) = refl

host_lem :
    (r : HttpRequest) (config : Config)
    → Env.get
        (touch (codes "host") (add_headers r.headers (server_variables r config)))
        (codes "host")
      ≡ Env.or_empty (first_named to_lowercase (codes "host") r.headers)
unfolding Env.get add_headers beq
host_lem r config =
    let before = add_named to_lowercase r.headers (server_variables r config) in
    let header = first_named to_lowercase (codes "host") r.headers in
    ap Env.or_empty (
      lookup-touch (codes "host") (codes "host") before
      ∙ ap (λ o. or_else o (some []))
          (lookup-add_named to_lowercase (codes "host") r.headers (server_variables r config)
            ∙ ap (λ o. or_else o header) (no_host r config)))
    ∙ empty_default header

-- A variable of an HTTP request is what describes the URL, else what the server says of the
-- request, else the first header of that name in any case of its letters, so that no header
-- replaces `REMOTE_ADDR` or another of them; the host and the cookie are empty without a header.
pub lookup-http_environment :
    (r : HttpRequest) (config : Config) (j : Bytes)
    → lookup j (http_environment r config)
      ≡ or_else
          (url_variable
            (codes "http://" ++ Env.or_empty (first_named to_lowercase (codes "host") r.headers))
            r.destination
            j)
          (or_else (lookup j (server_variables r config)) (
            or_else
              (first_named to_lowercase j r.headers)
              (or_else (default_empty (codes "host") j) (default_empty (codes "cookie") j))))
unfolding http_environment add_headers
lookup-http_environment r config j =
    let before = add_named to_lowercase r.headers (server_variables r config) in
    let env = touch (codes "host") before in
    let base = codes "http://" ++ Env.get env (codes "host") in
    let url = url_variable base r.destination j in
    let header = first_named to_lowercase j r.headers in
    let host = default_empty (codes "host") j in
    let cookie = default_empty (codes "cookie") j in
    let server = lookup j (server_variables r config) in
    lookup-touch (codes "cookie") j (add_urls base r.destination env)
    ∙ ap (λ o. or_else o cookie) (lookup-add_urls base r.destination j env)
    ∙ or_else_assoc url (lookup j env) cookie
    ∙ ap (λ o. or_else url (or_else o cookie)) (lookup-touch (codes "host") j before)
    ∙ ap (λ o. or_else url (or_else (or_else o host) cookie))
        (lookup-add_named to_lowercase j r.headers (server_variables r config))
    ∙ ap (or_else url) (or_else_four server header host cookie)
    ∙ ap
        (λ b.
          or_else (url_variable (codes "http://" ++ b) r.destination j)
            (or_else server (or_else header (or_else host cookie))))
        (host_lem r config)

-- A variable of a FastCGI request is what describes the URL, else the content type, else the first
-- parameter of that name, where a parameter of a header has the name of the header in lower case.
pub lookup-fastcgi_environment :
    (parameters : Variables) (j : Bytes)
    → lookup j (fastcgi_environment parameters)
      ≡ or_else
          (url_variable (base_url parameters) (parameter parameters (codes "REQUEST_URI")) j)
          (or_else
            (if beq (codes "content-type") j
              then some (parameter parameters (codes "CONTENT_TYPE"))
              else none)
            (first_named variable_name j parameters))
unfolding fastcgi_environment add_parameters lookup
lookup-fastcgi_environment parameters j =
    let uri = parameter parameters (codes "REQUEST_URI") in
    let m = (codes "content-type", parameter parameters (codes "CONTENT_TYPE")) ∷ [] in
    let found = first_named variable_name j parameters in
    let base = base_url parameters in
    lookup-add_named variable_name j parameters (add_urls base uri m)
    ∙ ap (λ o. or_else o found) (lookup-add_urls base uri j m)
    ∙ or_else_assoc (url_variable base uri j) (lookup j m) found
