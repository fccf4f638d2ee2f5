-- ===== src/Tests/Responses.antt =====
-- Runs of the theorems on responses and their cookies.
use nawa.Common.{◌↔◌, ◌≡◌, List, [], ◌∷◌, ◌++◌, some, none, not, ◌&&◌, if◌then◌else◌, codes, beq}
use nawa.Common.Table.{text_eq, lookup}
use nawa.Common.Result.{ok, err, exception}
use nawa.Util.Strings.{to_lowercase}
use nawa.Config
use nawa.Request.Env
use nawa.Request.Gpc
use nawa.Connection.State.{Connection, new_cookie}
use nawa.Connection.Response.{set_cookie, unset_cookie, set_header, add_header, unset_header}
use nawa.Connection.Stream.{Action, write, flush, run, written, flushes, head, pending, run-written}
use nawa.Connection.Headers.{header_values, header_values-lem}
use nawa.Connection.Cookies.{Allowed, HasPlainCookies, set_cookie-HasPlainCookies}
use nawa.Tests.Sample.{connection}

abbrev actions : List Action
actions = write (codes "a") ∷ flush ∷ write (codes "b") ∷ flush ∷ write (codes "c") ∷ []

run-written_example :
    let (c', sent) = run (λ t. none) actions connection in
    sent ++ pending c'
    ≡ (if not connection.is_flushed && flushes actions then head (λ t. none) connection else [])
      ++ (pending connection ++ written actions)
run-written_example = run-written (λ t. none) actions connection

header_values-lem_example :
    let same = beq (to_lowercase (codes "X-A")) (to_lowercase (codes "x-a")) in
    let old = header_values (codes "x-a") connection in
    (header_values (codes "x-a") (set_header (codes "X-A") (codes "v") connection)
      ≡ (if same then codes "v" ∷ [] else old))
    × (header_values (codes "x-a") (add_header (codes "X-A") (codes "v") connection)
        ≡ (if same then old ++ codes "v" ∷ [] else old))
    × (header_values (codes "x-a") (unset_header (codes "X-A") connection)
        ≡ (if same then [] else old))
header_values-lem_example = header_values-lem (codes "X-A") (codes "x-a") (codes "v") connection

abbrev no_cookies : Connection
no_cookies = record connection { cookies = [] }

nothing_set : HasPlainCookies no_cookies
unfolding HasPlainCookies lookup
nothing_set key cookie h = cc

set_cookie-HasPlainCookies_example :
    let (c', r) = set_cookie (codes "n") (new_cookie (codes "v")) no_cookies in
    let allowed = Allowed (codes "n") (new_cookie (codes "v")) in
    ((r ≡ ok tt) ↔ allowed)
    × ((r ≡ err (exception 1)) ↔ (¬ allowed))
    × (allowed → lookup (codes "n") c'.cookies ≡ some (new_cookie (codes "v")))
    × ((¬ allowed) → c' ≡ no_cookies)
    × HasPlainCookies c'
    × HasPlainCookies (unset_cookie (codes "n") no_cookies)
set_cookie-HasPlainCookies_example =
    set_cookie-HasPlainCookies (codes "n") (new_cookie (codes "v")) no_cookies nothing_set
