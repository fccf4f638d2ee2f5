-- ===== src/Tests/Handlers.antt =====
-- Runs of the theorems on the request handlers.
use nawa.Common.{
  ◌+◌, ℕ, zero, suc, ◌≡◌, refl, true, false, List, [], ◌∷◌, ◌++◌, none, some, Bytes, codes, beq,
  find_first_of, substr, arith, subst, Option,
}
use nawa.Common.Table.{text_eq, pair_test, lookup, assign, insert_new}
use nawa.Common.Result.{ok, err, exception}
use nawa.Common.Number.{stoul, stol}
use nawa.Util.Strings.{to_lowercase}
use nawa.Config.{Config}
use nawa.Config
use nawa.Connection.Response.{set_response_body}
use nawa.Connection.Stream.{write, flush, flushes}
use nawa.Session.Store.{Store, empty_store}
use nawa.Session.Autostart.{ConnectionInit, connect}
use nawa.Session.Invariant.{Valid}
use nawa.Filter.Types.{AccessFilterList}
use nawa.Filter.Apply.{Outside}
use nawa.Handler.{Application, RequestHandler, drop_handler}
use nawa.Handler.Serve.{serve}
use nawa.Handler.Serve.Sessions.{Careful, here, next, request, gone, served-Valid}
use nawa.Handler.Environment.{
  HttpRequest, http_environment, server_variables, add_headers, add_named, touch, add_urls,
}
use nawa.Handler.Environment.Laws.{lookup-http_environment, url_variable, first_named}
use nawa.Handler.Body.{Read, handle, consume_all}
use nawa.Handler.Body.Laws.{inputs}
use nawa.Handler.Http.{
  respond, waiting, http_connection_init, input_handler, read_max_size, kibibytes, http_flushes,
}
use nawa.Handler.Http.Post.{respond-consume_all, with_body}
use nawa.Handler.Fastcgi.{dumped}
use nawa.Handler.Fastcgi.Laws.{
  flushed_by, flushed_by-heads, fastcgi_head, http_head, bodies, writes,
}
use nawa.Handler.Lifecycle.{Command, Luck, start_with, stop_now, join_now, exec_all}
use nawa.Handler.Lifecycle.Http.{HttpData, http_drop, launch_threads, http_exec}
use nawa.Handler.Lifecycle.Fastcgi.{fastcgi_exec}
use nawa.Handler.Lifecycle.History.{
  has_started, has_joined, start_answer, new_http, new_fastcgi, exec_all-history,
}
use nawa.Handler.Lifecycle.Threads.{http_calls, launches, awaits, launches-awaits}
use nawa.Tests.Sample.{outside, connection}

abbrev app_page : Application
app_page st c = (st, set_response_body (codes "hi") c, [], ok tt)

abbrev no_filters : AccessFilterList
no_filters = record {
  filters_enabled = false;
  block_filters = [];
  auth_filters = [];
  forward_filters = [];
}

abbrev handler : RequestHandler
handler = record {
  handle_request_function = some app_page;
  access_filters = some no_filters;
  config = none;
}

abbrev posts : Config
posts = record { values = ((codes "post", codes "max_size"), codes "1") ∷ [] }

abbrev post_request : HttpRequest
post_request = record {
  source = codes "10.0.0.1:99";
  source_port = 99;
  method = codes "POST";
  destination = codes "/a?b=c";
  headers = (codes "Content-Length", codes "5") ∷ (codes "Remote_Addr", codes "x") ∷ [];
  arrange = λ vars. vars;
}

abbrev init : ConnectionInit
init = http_connection_init post_request posts

abbrev read_of : Bytes → ℕ → Read
read_of input n = record { is_eof = false; input = input; bytes_transferred = n }

abbrev two_threads : HttpData
two_threads = record {
  has_server = true;
  concurrency = 2;
  threads = 0;
  request_handling_active = false;
  joined = false;
}

-- The second of two threads fails to start.
abbrev second_fails : Luck
second_fails zero = true
second_fails (suc n) = false

is_connected : (connect outside.world 1 init empty_store).2 ≡ ok tt
unfolding connect Config.get lookup pair_test beq http_connection_init
is_connected = refl

abbrev CarefulIf : Option Application → Type 0
CarefulIf none = Unit
CarefulIf (some application) = Careful application

app_page-Careful :
    (application : Application)
    → handler.handle_request_function ≡ some application
    → Careful application
app_page-Careful application e = subst (λ f. CarefulIf f) e (λ st c v. v)

served : Store
unfolding serve
served = (serve outside handler init empty_store).0

-- A second request, an hour later and with other random numbers.
abbrev later : Outside
later = record outside {
  world = record outside.world {
    now = outside.world.now + 3600;
    gc_draw = outside.world.gc_draw + 1;
  };
}

served_twice : Store
unfolding served
served_twice = (serve later handler init served).0

served-Valid_example : Valid (drop_handler served_twice)
unfolding served_twice
served-Valid_example = served-Valid (drop_handler served_twice) (
    next empty_store served_twice (drop_handler served_twice)
      (next empty_store served served_twice
        (next empty_store empty_store served (here empty_store)
          (request outside handler init empty_store app_page-Careful))
        (request later handler init served app_page-Careful))
      (gone served_twice))

lookup-http_environment_example :
    lookup (codes "REMOTE_ADDR") (http_environment post_request posts) ≡ some (codes "10.0.0.1")
unfolding url_variable first_named server_variables lookup beq to_lowercase find_first_of substr
lookup-http_environment_example = lookup-http_environment post_request posts (codes "REMOTE_ADDR")

is_post : beq post_request.method (codes "POST") ≡ true
unfolding beq
is_post = refl

has_length : lookup (codes "content-length") init.request_init.environment ≡ some (codes "5")
unfolding http_connection_init http_environment add_headers add_named server_variables insert_new
    touch add_urls assign lookup beq to_lowercase
has_length = refl

is_five : stoul (codes "5") ≡ ok 5
unfolding stoul
is_five = refl

is_kibibyte : read_max_size posts ≡ ok 1024
unfolding read_max_size stol kibibytes Config.get lookup pair_test beq
is_kibibyte = refl

respond-consume_all_example :
    let h = input_handler (λ vars. vars) init 1024 5 in
    (respond post_request posts ≡ ok (waiting h))
    × (consume_all (read_of (codes "ab") 2 ∷ read_of (codes "cde") 3 ∷ []) h
        ≡ handle (with_body (λ vars. vars) init (codes "abcde")))
unfolding inputs
respond-consume_all_example =
    respond-consume_all post_request posts (codes "5") 5 1024 (read_of (codes "ab") 2 ∷ [])
      (read_of (codes "cde") 3) is_post has_length is_five is_kibibyte (omega arith)
      ((refl, refl), tt) (refl, refl) (omega arith) (omega arith) (omega arith)

flushed_by-heads_example :
    let out = flushed_by outside.gmtime (write (codes "a") ∷ flush ∷ flush ∷ []) connection in
    (dumped out ≡ fastcgi_head outside.gmtime connection ++ bodies out)
    × (http_flushes out ≡ http_head outside.gmtime connection ++ writes out)
unfolding flushes
flushed_by-heads_example =
    flushed_by-heads outside.gmtime (write (codes "a") ∷ flush ∷ flush ∷ []) connection

-- The second thread fails to start, the handler is joined, and a further start is refused.
abbrev commands : List Command
commands = start_with second_fails ∷ stop_now ∷ join_now ∷ []

exec_all-history_example :
    let d = (exec_all http_exec commands (new_http 2)).0 in
    let e = (exec_all fastcgi_exec commands new_fastcgi).0 in
    ((d.request_handling_active ≡ false)
      × (d.joined ≡ true)
      × ((http_exec (start_with second_fails) d).2 ≡ err (exception 10)))
    × ((e.request_handling_active ≡ true)
        × (e.joined ≡ true)
        × ((fastcgi_exec (start_with second_fails) e).2 ≡ ok tt))
unfolding launch_threads has_started has_joined start_answer
exec_all-history_example = exec_all-history commands second_fails 2

launches-awaits_example :
    let (d, calls) =
      http_calls (start_with second_fails ∷ start_with second_fails ∷ stop_now ∷ []) two_threads in
    launches (calls ++ http_drop d) ≡ awaits (calls ++ http_drop d)
launches-awaits_example =
    launches-awaits (start_with second_fails ∷ start_with second_fails ∷ stop_now ∷ []) two_threads
      refl
