-- ===== src/Handler/Http.antt =====
-- `HttpHandler` of src/RequestHandler/impl/HttpRequestHandler.cpp: what a request is answered with,
-- up to the body of a POST request.
pub mod Post
use nawa.Common.{
  ℕ, ◌+◌, ◌-◌, ◌*◌, ◌%◌, ◌^◌, Bool, true, false, ◌&&◌, ◌||◌, List, [], ◌∷◌, ◌++◌, Option, none,
  some, ltb, leb, if◌then◌else◌, Bytes, codes, beq,
}
use nawa.Common.Table.{text_eq, lookup}
use nawa.Common.Result.{
  Result, ok, err, ◌>>=◌, exception, invalid_argument, out_of_range, undefined, unfinished,
}
use nawa.Common.Number.{u64, stoul, stol}
use nawa.Util.Queries.{Arrangement, parse_cookies}
use nawa.Util.ErrorPage.{generate_error_page}
use nawa.Config.{Config}
use nawa.Config
use nawa.Request.Init.{RequestInit}
use nawa.Request.Env
use nawa.Connection.Response.{Flush}
use nawa.Session.Autostart.{ConnectionInit}
use nawa.Handler.Environment.{HttpRequest, Variables, http_environment, get_variables}
use nawa.Handler.Body.{RawPostAccess, never, nonstandard, always, InputHandler}

-- The calls on the connection of cpp-netlib.
pub data Output : Type 0 where
  send_status : ℕ → Output
  send_headers : Variables → Output
  send_body : Bytes → Output

unfoldable pub send_server_error : List Output
send_server_error =
    send_status 500
    ∷ send_headers ((codes "content-type", codes "text/html; charset=utf-8") ∷ [])
    ∷ send_body (generate_error_page 500)
    ∷ []

-- The flush callback: status and headers go out with the first flush only.
unfoldable pub http_flush : Flush → List Output
http_flush f =
    if f.flushed_before
    then send_body f.body ∷ []
    else send_status f.status ∷ send_headers f.headers ∷ send_body f.body ∷ []

unfoldable pub http_flushes : List Flush → List Output
http_flushes [] = []
http_flushes (f ∷ flushes) = http_flush f ++ http_flushes flushes

unfoldable pub http_connection_init : HttpRequest → Config → ConnectionInit
http_connection_init r config =
    let env = http_environment r config in
    record {
      request_init = record {
        environment = env;
        get_vars = get_variables r;
        post_vars = [];
        cookie_vars = parse_cookies (Env.get env (codes "cookie"));
        post_files = [];
        raw_post = none;
        post_content_type = [];
      };
      config = config;
    }

unfoldable pub read_raw_access : Config → RawPostAccess
read_raw_access config =
    let raw_post = Config.get config (codes "post") (codes "raw_access") in
    if beq raw_post (codes "never")
    then never
    else if beq raw_post (codes "always")
    then always
    else nonstandard

-- The product of a `long` with 1024, which overflows outside of 2^53 on either side.
unfoldable pub kibibytes : ℕ → Result ℕ
kibibytes n =
    if ltb n (2 ^ 53) || leb (u64 - 2 ^ 53) n then ok ((n * 1024) % u64) else err undefined

unfoldable pub read_max_size : Config → Result ℕ
read_max_size config = stol (Config.get config (codes "post") (codes "max_size")) >>= kibibytes

-- What the handler does: it sends the error page, leaves the request without an answer, reads the
-- body, or handles the request.
pub data Response : Type 0 where
  refused : Response
  unanswered : Response
  waiting : InputHandler → Response
  ready : ConnectionInit → Response

-- `try { … } catch (invalid_argument const&) {} catch (out_of_range const&) {}`.
unfoldable pub catch_numbers : Result Response → Result Response
catch_numbers (ok r) = ok r
catch_numbers (err invalid_argument) = ok unanswered
catch_numbers (err out_of_range) = ok unanswered
catch_numbers (err (exception n)) = err (exception n)
catch_numbers (err undefined) = err undefined
catch_numbers (err unfinished) = err unfinished

unfoldable pub input_handler : Arrangement → ConnectionInit → ℕ → ℕ → InputHandler
input_handler arrange init largest length = record {
  connection_init = init;
  max_post_size = largest;
  expected_size = length;
  post_body = [];
  raw_post_access = read_raw_access init.config;
  arrange = arrange;
}

unfoldable pub read_post : Arrangement → ConnectionInit → Result Response
read_post arrange init = catch_numbers (
    stoul (Env.get init.request_init.environment (codes "content-length")) >>= λ content_length.
    (read_max_size init.config >>= λ largest. ok (
      if ltb largest content_length
      then refused
      else waiting (input_handler arrange init largest content_length))))

abbrev is_some {ℓ} : {A : Type ℓ} → Option A → Bool
is_some none = false
is_some (some a) = true

unfoldable pub respond : HttpRequest → Config → Result Response
respond r config =
    let init = http_connection_init r config in
    if beq r.method (codes "POST")
      && is_some (lookup (codes "content-length") init.request_init.environment)
    then read_post r.arrange init
    else ok (ready init)
