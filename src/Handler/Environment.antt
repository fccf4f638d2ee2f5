-- ===== src/Handler/Environment.antt =====
-- The environment variables that the two handlers make of a request: `HttpHandler::operator()` of
-- src/RequestHandler/impl/HttpRequestHandler.cpp and `FastcgippRequestAdapter::response` of
-- src/RequestHandler/impl/FastcgiRequestHandler.cpp.
pub mod Laws
use nawa.Common.{
  ℕ, Bool, true, false, not, List, [], ◌∷◌, ◌++◌, Option, none, some, if◌then◌else◌, is_empty, ◌==◌,
  Bytes, codes, beq, npos, find_first_of, substr,
}
use nawa.Common.Table.{text_eq, lookup, assign, insert_new}
use nawa.Common.Number.{to_string}
use nawa.Util.Strings.{to_lowercase, replace_byte}
use nawa.Util.Queries.{Arrangement, split_query_string, parse_cookies}
use nawa.Request.Env
use nawa.Config.{Config}
use nawa.Config

abbrev pub Variables : Type 0
Variables = List (Bytes × Bytes)

-- What the server of cpp-netlib hands to the handler, and the order in which the hash tables of the
-- request keep their elements.
pub record HttpRequest : Type 0 where
  pub source : Bytes
  pub source_port : ℕ
  pub method : Bytes
  pub destination : Bytes
  pub headers : Variables
  pub arrange : Arrangement

unfoldable pub get_listen_addr : Config → Bytes
get_listen_addr config =
    let addr = Config.get config (codes "http") (codes "listen") in
    if is_empty addr then codes "127.0.0.1" else addr

unfoldable pub get_listen_port : Config → Bytes
get_listen_port config =
    let port = Config.get config (codes "http") (codes "port") in
    if is_empty port then codes "8080" else port

unfoldable pub server_variables : HttpRequest → Config → Variables
server_variables r config =
    (codes "REMOTE_ADDR", substr r.source 0 (find_first_of b':' r.source))
    ∷ (codes "REQUEST_URI", r.destination)
    ∷ (codes "REMOTE_PORT", to_string r.source_port)
    ∷ (codes "REQUEST_METHOD", r.method)
    ∷ (codes "SERVER_ADDR", get_listen_addr config)
    ∷ (codes "SERVER_PORT", get_listen_port config)
    ∷ (codes "SERVER_SOFTWARE", codes "NAWA Development Web Server")
    ∷ []

-- Entries under new names; the first of a name counts, and what is there stays.
unfoldable pub add_named : (Bytes → Bytes) → Variables → Variables → Variables
add_named rename [] env = env
add_named rename ((k, v) ∷ entries) env = add_named rename entries (insert_new (rename k) v env)

unfoldable pub add_headers : Variables → Variables → Variables
add_headers headers env = add_named to_lowercase headers env

-- `operator[]` of an unordered_map, which makes an empty entry where there is none.
unfoldable pub touch : Bytes → Variables → Variables
touch name env = insert_new name [] env

-- The base URL, and the URL with and without its query string.
unfoldable pub add_urls : Bytes → Bytes → Variables → Variables
add_urls base_url uri env =
    assign (codes "FULL_URL_WITHOUT_QS") (base_url ++ substr uri 0 (find_first_of b'?' uri))
      (assign (codes "FULL_URL_WITH_QS") (base_url ++ uri) (assign (codes "BASE_URL") base_url env))

unfoldable pub http_environment : HttpRequest → Config → Variables
http_environment r config =
    let env = touch (codes "host") (add_headers r.headers (server_variables r config)) in
    touch (codes "cookie")
      (add_urls (codes "http://" ++ Env.get env (codes "host")) r.destination env)

unfoldable pub get_variables : HttpRequest → Variables
get_variables r =
    if find_first_of b'?' r.destination == npos
    then []
    else split_query_string r.arrange r.destination

-- `parameters.count(k) ? parameters.at(k) : string()`.
unfoldable pub parameter : Variables → Bytes → Bytes
parameter parameters k = Env.get parameters k

-- Parameters with the prefix are HTTP headers; their names are turned back into lower case.
unfoldable pub variable_name : Bytes → Bytes
variable_name k =
    if beq (substr k 0 5) (codes "HTTP_")
    then replace_byte b'_' b'-' (to_lowercase (substr k 5 npos))
    else k

unfoldable pub add_parameters : Variables → Variables → Variables
add_parameters parameters env = add_named variable_name parameters env

abbrev is_some {ℓ} : {A : Type ℓ} → Option A → Bool
is_some none = false
is_some (some a) = true

unfoldable pub base_url : Variables → Bytes
base_url parameters =
    (if is_some (lookup (codes "HTTPS") parameters) then codes "https://" else codes "http://")
    ++ parameter parameters (codes "HTTP_HOST")

unfoldable pub fastcgi_environment : Variables → Variables
fastcgi_environment parameters = add_parameters parameters (
    add_urls (base_url parameters) (parameter parameters (codes "REQUEST_URI"))
      ((codes "content-type", parameter parameters (codes "CONTENT_TYPE")) ∷ []))
