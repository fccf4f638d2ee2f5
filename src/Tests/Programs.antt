-- ===== src/Tests/Programs.antt =====
-- Runs of the theorems on nawarun and on the log.
use nawa.Common.{
  ℕ, ◌<◌, ◌≡◌, refl, true, false, List, [], ◌∷◌, ◌++◌, map, none, some, codes, beq, arith, substr,
}
use nawa.Common.Table.{insert_new, pair_test}
use nawa.Common.Result.{ok}
use nawa.Config.{Config, Entry}
use nawa.Config
use nawa.Logging.{LogState, debug, informational, cerr, stream}
use nawa.Logging.Laws.{
  Action, Kept, act_all, act_all-Kept, set_stream_to, set_level_to, make, drop, drops,
}
use nawa.Nawarun.CommandLine.{given, parse_command_line, override_of}
use nawa.Nawarun.CommandLine.Laws.{IsOption, option, IsPlain, parse_command_line-option}
use nawa.Nawarun.Settings.{Doubles, load_config}
use nawa.Nawarun.App.{Library}
use nawa.Nawarun.Run.{System, run}
use nawa.Nawarun.CommandLine.{Parameters}
use nawa.Nawarun.Run.Order.{Ordered, target, root, run-Ordered}

abbrev entries : List Entry
entries = ((codes "a", codes "b"), codes "c") ∷ []

IsPlain-path : IsPlain (codes "f.ini")
unfolding beq
IsPlain-path = (refl, refl, refl, refl)

is_no_option : override_of (codes "f.ini") ≡ none
unfolding override_of substr beq
is_no_option = refl

a_b_c : IsOption ((codes "a", codes "b"), codes "c")
unfolding option
a_b_c = (
  (refl, ((λ e. omega (arith, e)), tt), ((λ e. omega (arith, e)), tt)),
  (refl, ((λ e. omega (arith, e)), tt), ((λ e. omega (arith, e)), tt)),
  (refl, ((λ e. omega (arith, e)), tt)),
  omega arith,
)

parse_command_line-option_example :
    (parse_command_line (map option entries ++ codes "f.ini" ∷ [])
      ≡ given (record { config_file = some (codes "f.ini"); config_overrides = entries }))
    × (parse_command_line (map option entries)
        ≡ given (record { config_file = some (codes "config.ini"); config_overrides = entries }))
    × (override_of (option ((codes "a", codes "b"), codes "c") ++ codes "=d") ≡ none)
unfolding option beq
parse_command_line-option_example =
    parse_command_line-option entries (codes "f.ini") ((codes "a", codes "b"), codes "c")
      (codes "d") (a_b_c, tt) IsPlain-path is_no_option a_b_c refl ((λ e. omega (arith, e)), tt)
      (omega arith)

abbrev log : LogState
log = record {
  locked = true;
  out = cerr;
  open_file = none;
  output_level = informational;
  extended_format = false;
  instance_count = 3;
}

abbrev actions : List Action
actions = set_level_to debug ∷ make ∷ drop ∷ drop ∷ set_stream_to (stream 1) ∷ []

-- Two objects are destroyed, and one is made.
one_left : drops (λ f. true) actions < 3
unfolding drops
one_left = omega arith

act_all-Kept_example : Kept (λ f. true) log (act_all (λ f. true) actions log)
act_all-Kept_example = act_all-Kept (λ f. true) actions log refl one_left (omega arith)

abbrev numbers : Doubles
numbers = record {
  Double = ℕ;
  stod = λ s. ok 1;
  one = 1;
  times_hardware = λ x. x;
  to_unsigned = λ x. x;
}

abbrev library : Library
library = record {
  nawa_version_major = some 1;
  nawa_version_minor = some 0;
  init_symbol = some (λ app. (app, 0));
  handle_request_symbol = some (λ st c. (st, c, [], ok tt));
}

abbrev system : System
system = record {
  ini_parse = λ file. (
    false,
    ((codes "privileges", codes "user"), codes "u")
        ∷ ((codes "privileges", codes "group"), codes "g")
        ∷ ((codes "application", codes "path"), codes "app.so")
        ∷ [],
  );
  doubles = numbers;
  accounts = record {
    getuid = 0;
    getpwnam = λ name. some 33;
    getgrnam = λ name. some 44;
    getgrouplist = λ name gid. none;
  };
  loader = record { dlopen = λ path. some library; version_major = 1; version_minor = 0 };
  allows = λ c. true;
  new_handler = λ config n. ok tt;
}

abbrev parameters : Parameters
parameters = record { config_file = some (codes "f.ini"); config_overrides = [] }

abbrev file : Config
file = record {
  values =
      ((codes "privileges", codes "user"), codes "u")
      ∷ ((codes "privileges", codes "group"), codes "g")
      ∷ ((codes "application", codes "path"), codes "app.so")
      ∷ [];
}

is_loaded : load_config system.ini_parse (some (codes "f.ini")) ≡ some file
unfolding load_config Config.read Config.insert Config.insert_all insert_new pair_test beq
is_loaded = refl

run-Ordered_example :
    Ordered (target system (Config.override [] file)) root (run system parameters).0
run-Ordered_example = run-Ordered system parameters file refl is_loaded
