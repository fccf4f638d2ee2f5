-- ===== src/Nawarun/Settings.antt =====
-- What src/nawarun/nawarun.cpp reads from the configuration: the file itself, the termination
-- timeout, the log level, and the number of threads.
use nawa.Common.{
  ℕ, ◌%◌, ◌^◌, Bool, true, List, [], Option, none, some, if◌then◌else◌, is_empty, Bytes, codes, beq,
}
use nawa.Common.Result.{Result, ok, err, ◌>>=◌, catch_invalid}
use nawa.Common.Number.{stoul}
use nawa.Config.{Config, Entry}
use nawa.Config
use nawa.Logging.{
  LogState, off, error, warning, debug, set_output_level, set_extended_format, lock_stream,
}

-- The value of `termination_timeout` in seconds, an `unsigned int`. A value that is no number
-- leaves the timeout; one that does not fit an `unsigned long` throws.
unfoldable pub set_termination_timeout : Config → ℕ → Result ℕ
set_termination_timeout config timeout =
    let text = Config.get config (codes "system") (codes "termination_timeout") in
    if is_empty text
    then ok timeout
    else catch_invalid (stoul text >>= λ n. ok (n % 2 ^ 32)) timeout

-- The configuration, without values if there is no file, or none if the file cannot be read.
unfoldable pub load_config : (Bytes → Bool × List Entry) → Option Bytes → Option Config
load_config ini_parse none = some (record { values = [] })
load_config ini_parse (some file) =
    let (config, r) = Config.read ini_parse file (record { values = [] }) in
    elim r [ ok _ ↦ some config | err e ↦ none ]

set_level : Bytes → LogState → LogState
set_level level log =
    if beq level (codes "off")
    then set_output_level off log
    else if beq level (codes "error")
    then set_output_level error log
    else if beq level (codes "warning")
    then set_output_level warning log
    else if beq level (codes "debug")
    then set_output_level debug log
    else log

unfoldable pub set_up_logging : Config → LogState → LogState
unfolding set_level
set_up_logging config log =
    let log' = set_level (Config.get config (codes "logging") (codes "level")) log in
    lock_stream (
      if beq (Config.get config (codes "logging") (codes "extended")) (codes "on")
      then set_extended_format true log'
      else log')

-- The numbers of type `double`, which the number of threads is computed with: `stod`, 1.0,
-- `max(1.0, hardware_concurrency() * x)`, and the conversion to `unsigned int`.
pub record Doubles : Type 1 where
  pub Double : Type 0
  pub stod : Bytes → Result Double
  pub one : Double
  pub times_hardware : Double → Double
  pub to_unsigned : Double → ℕ

unfoldable pub get_concurrency : Doubles → Config → Result ℕ
get_concurrency d config =
    let threads =
      if Config.is_set (codes "system", codes "threads") config
      then catch_invalid (d.stod (Config.get config (codes "system") (codes "threads"))) d.one
      else ok d.one in
    let hardware =
      beq (Config.get config (codes "system") (codes "concurrency")) (codes "hardware") in
    threads >>= λ x. ok (d.to_unsigned (if hardware then d.times_hardware x else x))
