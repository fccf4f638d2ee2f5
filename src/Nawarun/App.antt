-- ===== src/Nawarun/App.antt =====
-- `loadAppFunctions` of src/nawarun/nawarun.cpp and src/AppInit.cpp: an application is a shared
-- library with an `init` function and a function that handles requests.
use nawa.Common.{
  ℕ, false, not, ◌||◌, [], Option, none, some, ◌==◌, if◌then◌else◌, is_empty, Bytes, codes,
}
use nawa.Common.Result.{Result, ok, err, ◌>>=◌, exception}
use nawa.Config.{Config}
use nawa.Config
use nawa.Filter.Types.{AccessFilterList}
use nawa.Handler.{Application}

pub record AppInit : Type 0 where
  pub config : Config
  pub access_filters : AccessFilterList
  pub num_threads : ℕ

abbrev pub no_filters : AccessFilterList
no_filters = record {
  filters_enabled = false;
  block_filters = [];
  auth_filters = [];
  forward_filters = [];
}

unfoldable pub new_app_init : Config → ℕ → AppInit
new_app_init config num_threads = record {
  config = config;
  access_filters = no_filters;
  num_threads = num_threads;
}

-- `init` of an application: it may change what it is handed, and its result is 0 on success.
abbrev pub InitFunction : Type 0
InitFunction = AppInit → AppInit × ℕ

-- The symbols of a library that can be opened, each of which may be missing.
pub record Library : Type 0 where
  pub nawa_version_major : Option ℕ
  pub nawa_version_minor : Option ℕ
  pub init_symbol : Option InitFunction
  pub handle_request_symbol : Option Application

-- The loader, and the version that the program has been built with.
pub record Loader : Type 0 where
  pub dlopen : Bytes → Option Library
  pub version_major : ℕ
  pub version_minor : ℕ

unfoldable pub load_app_symbol {ℓ} : {A : Type ℓ} → Option A → Result A
load_app_symbol none = err (exception 11)
load_app_symbol (some symbol) = ok symbol

unfoldable pub open_app : Loader → Bytes → Result Library
open_app l path = elim (l.dlopen path) [ none ↦ err (exception 2) | some library ↦ ok library ]

unfoldable pub load_app_functions : Loader → Config → Result (InitFunction × Application)
load_app_functions l config =
    let app_path = Config.get config (codes "application") (codes "path") in
    if is_empty app_path
    then err (exception 1)
    else open_app l app_path >>= λ app.
        (load_app_symbol app.nawa_version_major >>= λ major.
        (load_app_symbol app.nawa_version_minor >>= λ minor.
        if not (major == l.version_major) || not (minor == l.version_minor)
        then err (exception 3)
        else load_app_symbol app.init_symbol >>= λ init.
            (load_app_symbol app.handle_request_symbol >>= λ handle_request.
            ok (init, handle_request))))
