-- ===== src/Nawarun/CommandLine.antt =====
-- `parseCommandLine` of src/nawarun/nawarun.cpp.
pub mod Laws
use nawa.Common.{
  ℕ, Bool, true, false, ◌||◌, List, [], ◌∷◌, ◌++◌, Option, none, some, if◌then◌else◌, is_empty,
  Bytes, codes, beq, npos, substr,
}
use nawa.Config.{Entry}
use nawa.Util.Strings.{split_string}

pub record Parameters : Type 0 where
  pub config_file : Option Bytes
  pub config_overrides : List Entry

-- The help and the version are printed, and the program exits.
pub data Parsed : Type 0 where
  print_help print_version : Parsed
  given : Parameters → Parsed

-- `categoryAndKey` and the value as an override, if there are two parts of each.
entry_of : List Bytes → Bytes → Option Entry
entry_of (category ∷ key ∷ []) value = some ((category, key), value)
entry_of parts value = none

of_parts : List Bytes → Option Entry
unfolding entry_of
of_parts (id ∷ value ∷ []) = entry_of (split_string id b':' true) value
of_parts parts = none

-- `--category:key=value`.
unfoldable pub override_of : Bytes → Option Entry
unfolding of_parts
override_of arg =
    if beq (substr arg 0 2) (codes "--")
    then of_parts (split_string (substr arg 2 npos) b'=' true)
    else none

-- The last argument where it is no override: a path, or no file at all.
last_path : Bytes → Option Bytes
last_path arg = if beq arg (codes "--no-config-file") then none else some arg

-- The loop behind the tests of the first argument, and what follows it: without a last argument that
-- names a file or declines one, the file is `config.ini`.
unfoldable pub parse_arguments : List Bytes → List Entry → Parameters
unfolding last_path
parse_arguments [] overrides = record {
  config_file = some (codes "config.ini");
  config_overrides = overrides;
}
parse_arguments (arg ∷ []) overrides = elim (override_of arg) [
  | some entry ↦ record {
    config_file = some (codes "config.ini");
    config_overrides = overrides ++ entry ∷ [];
  }
  | none ↦ record { config_file = last_path arg; config_overrides = overrides }
]
parse_arguments (arg ∷ next ∷ args) overrides = elim (override_of arg) [
  | some entry ↦ parse_arguments (next ∷ args) (overrides ++ entry ∷ [])
  | none ↦ parse_arguments (next ∷ args) overrides
]

-- The arguments are those behind the name of the program.
unfoldable pub parse_command_line : List Bytes → Parsed
parse_command_line [] = given (parse_arguments [] [])
parse_command_line (arg ∷ args) =
    if beq arg (codes "--help") || beq arg (codes "-h")
    then print_help
    else if beq arg (codes "--version") || beq arg (codes "-v")
    then print_version
    else given (parse_arguments (arg ∷ args) [])
