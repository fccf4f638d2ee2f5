-- ===== src/Handler.antt =====
-- src/RequestHandler/RequestHandler.cpp and HandleRequestFunction.cpp: what the request handlers
-- share. The data of the HTTP and the FastCGI handler is below.
pub mod Serve
pub mod Environment
pub mod Body
pub mod Http
pub mod Fastcgi
pub mod Sockets
pub mod Lifecycle
use nawa.Common.{Bool, true, false, List, [], Option, none, some, if◌then◌else◌, beq, codes}
use nawa.Common.Result.{Result, ok, err, undefined}
use nawa.Config.{Config}
use nawa.Config
use nawa.Connection.State.{Connection}
use nawa.Connection.Response.{Flush}
use nawa.Session.Store.{Store, destroy}
use nawa.Filter.Types.{AccessFilterList}
use nawa.Filter.Apply.{Outside, apply_filters}

-- An application: it changes the sessions and the connection, may flush the response, and may
-- throw. The status that it returns is not used.
abbrev pub Application : Type 0
Application = Store → Connection → Store × Connection × List Flush × Result (Unit {0})

-- Pointers that are null are `none`.
pub record RequestHandler : Type 0 where
  pub handle_request_function : Option Application
  pub access_filters : Option AccessFilterList
  pub config : Option Config

-- The default constructor.
abbrev pub no_data : RequestHandler
no_data = record { handle_request_function = none; access_filters = none; config = none }

unfoldable pub set_app_request_handler : Option Application → RequestHandler → RequestHandler
set_app_request_handler f h = record h { handle_request_function = f }

unfoldable pub set_access_filters : AccessFilterList → RequestHandler → RequestHandler
set_access_filters fs h = record h { access_filters = some fs }

unfoldable pub set_config : Config → RequestHandler → RequestHandler
set_config config h = record h { config = some config }

abbrev or_keep {ℓ} : {A : Type ℓ} → Option A → A → A
or_keep none old = old
or_keep (some new) old = new

abbrev or_keep_set {ℓ} : {A : Type ℓ} → Option A → Option A → Option A
or_keep_set none old = old
or_keep_set (some new) old = some new

unfoldable pub reconfigure :
    Option (Option Application)
    → Option AccessFilterList
    → Option Config
    → RequestHandler
    → RequestHandler
reconfigure function filters config h = record {
  handle_request_function = or_keep function h.handle_request_function;
  access_filters = or_keep_set filters h.access_filters;
  config = or_keep_set config h.config;
}

-- `(*handleRequestFunction)(connection)`.
unfoldable pub call_application :
    Option Application → Store → Connection → Store × Connection × List Flush × Result (Unit {0})
call_application none st c = (st, c, [], err undefined)
call_application (some application) st c = application st c

-- The application runs if the filters have not answered the request. An exception of the filters
-- leaves the function.
pub unless_answered :
    Option Application
    → Store × Connection × Result Bool
    → Store × Connection × List Flush × Result (Unit {0})
unless_answered function (st, c, err e) = (st, c, [], err e)
unless_answered function (st, c, ok true) = (st, c, [], ok tt)
unless_answered function (st, c, ok false) = call_application function st c

pub run_filters :
    Outside → Option AccessFilterList → Store → Connection → Store × Connection × Result Bool
run_filters o none st c = (st, c, ok false)
run_filters o (some fs) st c = apply_filters o fs st c

unfoldable pub handle_request :
    Outside
    → RequestHandler
    → Store
    → Connection
    → Store × Connection × List Flush × Result (Unit {0})
handle_request o h st c =
    unless_answered h.handle_request_function (run_filters o h.access_filters st c)

pub data Kind : Type 0 where
  http_handler fastcgi_handler : Kind

-- Which handler `newRequestHandler` makes.
unfoldable pub new_request_handler : Config → Kind
new_request_handler config =
    if beq (Config.get config (codes "system") (codes "request_handler")) (codes "http")
    then http_handler
    else fastcgi_handler

-- `~RequestHandler` clears the sessions.
unfoldable pub drop_handler : Store → Store
unfolding destroy
drop_handler st = destroy st

-- Unfolding this name opens `handle_request` and its parts.
unfoldable pub handle_code : Unit {0}
unfolding unless_answered run_filters handle_request
handle_code = tt
