-- ===== src/Logging.antt =====
-- src/logging/Log.cpp: the log level, the lock on the output, and what a message writes.
pub mod Laws
use nawa.Common.{
  ℕ, suc, ◌+◌, ◌-◌, ◌%◌, ◌^◌, Bool, true, false, not, ◌&&◌, List, [], ◌∷◌, ◌++◌, Option, none, some,
  leb, ◌==◌, if◌then◌else◌, Bytes, codes,
}
use nawa.Common.Result.{Result, ok, err, exception}

-- `Log::Level`, in the order of its values.
pub data Level : Type 0 where
  off error warning informational debug : Level

unfoldable pub value : Level → ℕ
value off = 0
value error = 1
value warning = 2
value informational = 3
value debug = 4

-- Where the output goes: the stream for errors, a stream of the program by its number, or the file.
pub data Target : Type 0 where
  cerr log_file : Target
  stream : ℕ → Target

-- The variables that all objects share. `instance_count` is an `unsigned int`.
pub record LogState : Type 0 where
  pub locked : Bool
  pub out : Target
  pub open_file : Option Bytes
  pub output_level : Level
  pub extended_format : Bool
  pub instance_count : ℕ

pub record Log : Type 0 where
  pub appname : Bytes
  pub default_level : Level

abbrev u32 : ℕ
u32 = 2 ^ 32

pub more_instances : LogState → LogState
more_instances log = record log { instance_count = (log.instance_count + 1) % u32 }

-- The constructors: the first object sets the output. The hostname and the process ID are read then.
unfoldable pub new_log : LogState → LogState × Log
unfolding more_instances
new_log log =
    let log' = if log.instance_count == 0 then record log { out = cerr } else log in
    (more_instances log', record { appname = codes "nawa"; default_level = informational })

unfoldable pub named_log : Bytes → Level → LogState → LogState × Log
named_log name level log =
    let (log', l) = new_log log in (log', record l { appname = name; default_level = level })

unfoldable pub level_log : Level → LogState → LogState × Log
level_log level log = let (log', l) = new_log log in (log', record l { default_level = level })

unfoldable pub copy_log : Log → LogState → LogState × Log
unfolding more_instances
copy_log other log = (more_instances log, other)

-- The assignment of another object; the object itself is left as it is.
unfoldable pub assign_log : Bool → Log → Log → LogState → LogState × Log
unfolding more_instances
assign_log itself other l log = if itself then (log, l) else (more_instances log, other)

-- The destructor, before the end of the program and in it.
unfoldable pub drop_log : Bool → LogState → LogState
drop_log ending log =
    let count = (log.instance_count + (u32 - 1)) % u32 in
    if ending
    then record log { open_file = none }
    else if count == 0
    then record log { instance_count = count; open_file = none; locked = false }
    else record log { instance_count = count }

unfoldable pub set_stream : Target → LogState → LogState
set_stream target log = if log.locked then log else record log { out = target }

-- `opens` says whether a file can be opened for writing. The file that was open is closed first.
unfoldable pub set_outfile : (Bytes → Bool) → Bytes → LogState → LogState × Result (Unit {0})
set_outfile opens filename log =
    if log.locked
    then (log, ok tt)
    else if opens filename
    then (record log { open_file = some filename; out = log_file }, ok tt)
    else (record log { open_file = none }, err (exception 1))

unfoldable pub set_output_level : Level → LogState → LogState
set_output_level level log = if log.locked then log else record log { output_level = level }

unfoldable pub set_extended_format : Bool → LogState → LogState
set_extended_format use_extended log =
    if log.locked then log else record log { extended_format = use_extended }

unfoldable pub lock_stream : LogState → LogState
lock_stream log = record log { locked = true }

unfoldable pub is_locked : LogState → Bool
is_locked log = log.locked

unfoldable pub set_appname : Bytes → Log → Log
set_appname name l = record l { appname = name }

unfoldable pub set_default_log_level : Level → Log → Log
set_default_log_level level l = record l { default_level = level }

-- What `write` sends, and where to. The prefix of the extended format goes to the output, and the
-- message to the stream for errors; `prefix` is the time, the host, the program and its ID.
unfoldable pub write_level : Bytes → Log → Bytes → Level → LogState → List (Target × Bytes)
write_level prefix l msg level log =
    if leb (value level) (value log.output_level)
      && (not (value log.output_level == 0) && not (value level == 0))
    then (if log.extended_format then (log.out, prefix) ∷ [] else [])
      ++ (cerr, codes "[" ++ (l.appname ++ (codes "] " ++ (msg ++ 10 ∷ [])))) ∷ []
    else []

-- `write` and `operator()` without a level.
unfoldable pub write : Bytes → Log → Bytes → LogState → List (Target × Bytes)
write prefix l msg log = write_level prefix l msg l.default_level log
