-- ===== src/Nawarun/Run.antt =====
-- `run`, `reload` and `shutdown` of src/nawarun/nawarun.cpp.
pub mod Order
use nawa.Common.{
  ℕ, Bool, true, false, not, ◌&&◌, List, [], ◌∷◌, ◌++◌, map, Option, none, some, ◌==◌,
  if◌then◌else◌, Bytes,
}
use nawa.Common.Result.{
  Result, ok, err, exception, invalid_argument, out_of_range, undefined, unfinished, ◌>>=◌,
}
use nawa.Config.{Config, Entry}
use nawa.Config
use nawa.Filter.Types.{AccessFilterList}
use nawa.Handler.{Application, RequestHandler, reconfigure}
use nawa.Handler.Lifecycle.{Command, stop_now, terminate_now}
use nawa.Nawarun.CommandLine.{Parameters}
use nawa.Nawarun.Settings.{Doubles, load_config, set_termination_timeout, get_concurrency}
use nawa.Nawarun.App.{AppInit, InitFunction, Loader, load_app_functions, new_app_init}
use nawa.Nawarun.Privileges.{
  Accounts, PrivilegeDowngrade, Syscall, prepare_privilege_downgrade, do_privilege_downgrade,
}

-- What the program uses from outside: the parser of the file, the numbers, the accounts, the loader,
-- which calls the system allows, and whether a request handler can be made.
pub record System : Type 1 where
  pub ini_parse : Bytes → Bool × List Entry
  pub doubles : Doubles
  pub accounts : Accounts
  pub loader : Loader
  pub allows : Syscall → Bool
  pub new_handler : Config → ℕ → Result (Unit {0})

-- What the program does that others see: the log is set up from a configuration, sockets are opened, system calls are made, the `init` of
-- the application is called, and the handler is reconfigured, started and joined.
pub data Event : Type 0 where
  set_logging : Config → Event
  open_sockets : Event
  call : Syscall → Event
  call_init : Event
  reconfigure_handler : AppInit → Event
  start_handler join_handler : Event

-- The events, and the exit code or an exception that is not caught.
abbrev pub Ran : Type 0
Ran = List Event × Result ℕ

-- `try { … } catch (Exception const&) { return 1; }`.
unfoldable pub or_exit {ℓ} : {A : Type ℓ} → Result A → (A → Ran) → Ran
or_exit (ok a) next = next a
or_exit (err (exception n)) next = ([], ok 1)
or_exit (err invalid_argument) next = ([], err invalid_argument)
or_exit (err out_of_range) next = ([], err out_of_range)
or_exit (err undefined) next = ([], err undefined)
or_exit (err unfinished) next = ([], err unfinished)

unfoldable pub or_throw {ℓ} : {A : Type ℓ} → Result A → (A → Ran) → Ran
or_throw (ok a) next = next a
or_throw (err e) next = ([], err e)

unfoldable pub after : List Event → Ran → Ran
after events (more, r) = (events ++ more, r)

-- The application is initialised, and the handler is started and joined. A start that fails is
-- logged.
unfoldable pub run_app : InitFunction → Config → ℕ → Ran
run_app init config concurrency =
    let (app_init, result) = init (new_app_init config concurrency) in
    after (call_init ∷ []) (
      if result == 0
      then (reconfigure_handler app_init ∷ start_handler ∷ join_handler ∷ [], ok 0)
      else ([], ok 1))

-- The privileges are dropped where that has been prepared; `exit(1)` ends the program.
unfoldable pub run_downgraded :
    (Syscall → Bool) → Option PrivilegeDowngrade → InitFunction → Config → ℕ → Ran
run_downgraded allows none init config concurrency = run_app init config concurrency
run_downgraded allows (some d) init config concurrency =
    let (calls, goes_on) = do_privilege_downgrade allows d in
    after (map call calls) (if goes_on then run_app init config concurrency else ([], ok 1))

unfoldable pub run_configured : System → Config → Ran
run_configured s config = or_throw (set_termination_timeout config 10) (λ timeout.
    after (set_logging config ∷ []) (
      or_exit (prepare_privilege_downgrade s.accounts config) (λ downgrade.
        or_exit (load_app_functions s.loader config) (λ (init, handle_request).
          or_throw (get_concurrency s.doubles config) (λ concurrency.
            or_exit (s.new_handler config concurrency) (λ made.
              after (open_sockets ∷ [])
                (run_downgraded s.allows downgrade init config concurrency)))))))

unfoldable pub run : System → Parameters → Ran
run s parameters = elim (load_config s.ini_parse parameters.config_file) [
  | none ↦ ([], ok 1)
  | some config ↦ run_configured s (Config.override parameters.config_overrides config)
]

-- The variables of the program that a reload reads and sets.
pub record Variables : Type 0 where
  pub request_handler : Option RequestHandler
  pub config_file : Option Bytes
  pub ready_to_reconfigure : Bool
  pub termination_timeout : ℕ

config_only : Config → RequestHandler → RequestHandler
config_only config h = reconfigure none none (some config) h

-- The application is exchanged if its `init` returns 0.
reload_initialised : InitFunction → Application → Config → ℕ → RequestHandler → RequestHandler
unfolding config_only
reload_initialised init handle_request config concurrency h =
    let (app_init, result) = init (new_app_init config concurrency) in
    if result == 0
    then reconfigure (some (some handle_request)) (some app_init.access_filters)
        (some app_init.config) h
    else config_only config h

-- Without an application only the configuration is exchanged.
unfoldable pub reload_handler : System → Config → RequestHandler → Result RequestHandler
unfolding reload_initialised config_only
reload_handler s config h = elim (load_app_functions s.loader config) [
  | err e ↦ ok (config_only config h)
  | ok (init, handle_request) ↦ get_concurrency s.doubles config >>= λ concurrency.
      ok (reload_initialised init handle_request config concurrency h)
]

reload_from : System → Option Config → Variables → RequestHandler → Result Variables
unfolding reload_handler
reload_from s none v h = ok v
reload_from s (some config) v h =
    set_termination_timeout config v.termination_timeout >>= λ timeout.
    (reload_handler s config h >>= λ h'.
    ok (record v { request_handler = some h'; termination_timeout = timeout }))

-- The flag is false during the reload and true after it, so a reload inside of another does nothing.
unfoldable pub reload : System → Variables → Result Variables
unfolding reload_from
reload s v = elim v.config_file [
  | none ↦ ok v
  | some file ↦ elim v.request_handler [
    | none ↦ ok v
    | some h ↦
        if v.ready_to_reconfigure
        then reload_from s (load_config s.ini_parse (some file)) v h
        else ok v
  ]
]

-- The signal handler: what the request handler is told, or none where the program exits. Between
-- the two the timeout passes, and the number of the signal tells whether pending requests are cut.
unfoldable pub shutdown : ℕ → ℕ → Variables → Option (List Command)
shutdown sigusr1 signum v = elim v.request_handler [
  | none ↦ none
  | some h ↦ some (stop_now ∷ (if not (signum == sigusr1) then terminate_now ∷ [] else []))
]
