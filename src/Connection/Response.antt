-- ===== src/Connection/Response.antt =====
-- The status, body, headers and cookies of a response.
use nawa.Common.{
  ℕ, Bool, true, false, not, ◌&&◌, ◌||◌, List, [], ◌∷◌, ◌++◌, Option, none, some, leb, ◌==◌,
  if◌then◌else◌, Bytes, codes,
}
use nawa.Common.Table.{text_eq, lookup, assign, erase}
use nawa.Common.Result.{Result, ok, err, exception}
use nawa.Common.Number.{to_string}
use nawa.Util.Strings.{to_lowercase}
use nawa.Util.Time.{Tm, make_http_time}
use nawa.Connection.State.{new_cookie, Connection, Cookie, SameSite, lax, strict, off}

-- `setResponseBody` drops what the response stream holds.
unfoldable pub set_response_body : Bytes → Connection → Connection
set_response_body content c = record c { body_string = content; response_stream = [] }

-- Writing to `responseStream()`.
unfoldable pub write_stream : Bytes → Connection → Connection
write_stream text c = record c { response_stream = c.response_stream ++ text }

unfoldable pub merge_stream : Connection → Connection
merge_stream c = record c { body_string = c.body_string ++ c.response_stream; response_stream = [] }

-- `getResponseBody`: the body and the stream behind it.
unfoldable pub get_response_body : Connection → Connection × Bytes
unfolding merge_stream
get_response_body c = let c' = merge_stream c in (c', c'.body_string)

unfoldable pub set_status : ℕ → Connection → Connection
set_status status c = record c { response_status = status }

unfoldable pub set_header : Bytes → Bytes → Connection → Connection
unfolding to_lowercase
set_header key value c = record c { headers = assign (to_lowercase key) (value ∷ []) c.headers }

abbrev pub or_none : Option (List Bytes) → List Bytes
or_none none = []
or_none (some vs) = vs

-- `headers[key].push_back(value)`, which makes an empty list for a new key.
unfoldable pub add_header : Bytes → Bytes → Connection → Connection
unfolding to_lowercase
add_header key value c =
    let k = to_lowercase key in
    record c { headers = assign k (or_none (lookup k c.headers) ++ value ∷ []) c.headers }

unfoldable pub unset_header : Bytes → Connection → Connection
unfolding to_lowercase
unset_header key c = record c { headers = erase (to_lowercase key) c.headers }

-- The character classes of the two regular expressions of `setCookie`.
abbrev is_alnum : ℕ → Bool
is_alnum c = (leb b'A' c && leb c b'Z') || (leb b'a' c && leb c b'z') || (leb b'0' c && leb c b'9')

unfoldable pub one_of : ℕ → Bytes → Bool
one_of c [] = false
one_of c (x ∷ xs) = c == x || one_of c xs

unfoldable pub is_key_char : ℕ → Bool
unfolding one_of
is_key_char c = is_alnum c || one_of c (codes "!#$%&'*+-.^_`|~")

unfoldable pub is_content_char : ℕ → Bool
unfolding one_of
is_content_char c = is_alnum c || one_of c (codes "!#$%&'()*+-./:<=>?@[]^_`{|}~")

-- `regex_match` of a class under a star.
unfoldable pub all_of : (ℕ → Bool) → Bytes → Bool
all_of p [] = true
all_of p (c ∷ s) = p c && all_of p s

unfoldable pub set_cookie : Bytes → Cookie → Connection → Connection × Result (Unit {0})
unfolding is_key_char is_content_char all_of
set_cookie key cookie c =
    if not (all_of is_key_char key) || not (all_of is_content_char cookie.content)
    then (c, err (exception 1))
    else (record c { cookies = assign key cookie c.cookies }, ok tt)

unfoldable pub unset_cookie : Bytes → Connection → Connection
unset_cookie key c = record c { cookies = erase key c.cookies }

unfoldable pub set_cookie_policy : Cookie → Connection → Connection
set_cookie_policy policy c = record c { cookie_policy = policy }

-- `FlushCallbackContainer`, what the flush callback is handed.
pub record Flush : Type 0 where
  pub status : ℕ
  pub headers : List (Bytes × Bytes)
  pub body : Bytes
  pub flushed_before : Bool

-- `getHeaders`: a pair for each value of each header.
header_pairs : Bytes → List Bytes → List (Bytes × Bytes)
header_pairs key [] = []
header_pairs key (value ∷ values) = (key, value) ∷ header_pairs key values

unfoldable pub flatten_headers : List (Bytes × List Bytes) → List (Bytes × Bytes)
unfolding header_pairs
flatten_headers [] = []
flatten_headers ((key, values) ∷ headers) = header_pairs key values ++ flatten_headers headers

abbrev or_else {ℓ} : {A : Type ℓ} → Option A → Option A → Option A
or_else none b = b
or_else (some a) b = some a

-- `; Name=value`, written where there is a value and it is not empty.
text_option : Bytes → Option Bytes → Bytes
text_option name none = []
text_option name (some []) = []
text_option name (some (c ∷ v)) = name ++ c ∷ v

abbrev or_off : SameSite → SameSite → SameSite
or_off off b = b
or_off lax b = lax
or_off strict b = strict

same_site_option : SameSite → Bytes
same_site_option off = []
same_site_option lax = codes "; SameSite=lax"
same_site_option strict = codes "; SameSite=strict"

module _ (gmtime : ℕ → Option Tm) where
  -- The name of the option is written before the conversion fails.
  expires_option : Option ℕ → Bytes
  expires_option none = []
  expires_option (some t) =
      codes "; Expires=" ++ elim (make_http_time gmtime t) [ ok text ↦ text | err e ↦ [] ]

  max_age_option : Option ℕ → Bytes
  max_age_option none = []
  max_age_option (some n) = codes "; Max-Age=" ++ to_string n

  unfoldable pub cookie_header : Cookie → Bytes → Cookie → Bytes
  unfolding text_option expires_option max_age_option same_site_option
  cookie_header policy name cookie =
      name
      ++ codes "="
      ++ cookie.content
      ++ text_option (codes "; Domain=") (or_else cookie.domain policy.domain)
      ++ text_option (codes "; Path=") (or_else cookie.path policy.path)
      ++ expires_option (or_else cookie.expires policy.expires)
      ++ max_age_option (or_else cookie.max_age policy.max_age)
      ++ (if cookie.secure || policy.secure then codes "; Secure" else [])
      ++ (if cookie.http_only || policy.http_only then codes "; HttpOnly" else [])
      ++ same_site_option (or_off cookie.same_site policy.same_site)

  cookie_headers : Cookie → List (Bytes × Cookie) → List (Bytes × Bytes)
  cookie_headers policy [] = []
  cookie_headers policy ((name, cookie) ∷ cookies) =
      (codes "set-cookie", cookie_header policy name cookie) ∷ cookie_headers policy cookies

  unfoldable pub get_headers : Bool → Connection → List (Bytes × Bytes)
  unfolding flatten_headers cookie_headers
  get_headers include_cookies c =
      flatten_headers c.headers
      ++ (if include_cookies then cookie_headers c.cookie_policy c.cookies else [])

  -- `flushResponse`: what the callback is handed, and the connection afterwards.
  unfoldable pub flush_response : Connection → Connection × Flush
  unfolding get_headers get_response_body set_response_body
  flush_response c =
      let headers = get_headers true c in
      let (c', body) = get_response_body c in
      (
        set_response_body [] (record c' { is_flushed = true }),
        record {
          status = c.response_status;
          headers = headers;
          body = body;
          flushed_before = c.is_flushed;
        },
      )

-- `getFullHttp`: the headers go before the body of the first flush.
header_lines : List (Bytes × Bytes) → Bytes
header_lines [] = []
header_lines ((key, value) ∷ headers) = key ++ (58 ∷ 32 ∷ (value ++ 13 ∷ 10 ∷ header_lines headers))

unfoldable pub head_text : List (Bytes × Bytes) → Bytes
unfolding header_lines
head_text headers = header_lines headers ++ 13 ∷ 10 ∷ []

unfoldable pub get_full_http : Flush → Bytes
get_full_http f = (if f.flushed_before then [] else head_text f.headers) ++ f.body

-- `setCookie` with a text makes a cookie of it.
unfoldable pub set_cookie_text : Bytes → Bytes → Connection → Connection × Result (Unit {0})
unfolding set_cookie
set_cookie_text key cookie_content c = set_cookie key (new_cookie cookie_content) c
