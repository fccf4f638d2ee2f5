-- ===== src/Session/Start.antt =====
-- `Session::start` with a session ID: the check of the ID, a new session, and garbage collection.
pub mod Cases
pub mod Keeps
pub mod Safety
pub mod Total
pub mod Resume
use nawa.Common.{
  ℕ, zero, suc, ◌+◌, ◌%◌, Bool, true, false, not, ◌&&◌, ◌||◌, List, [], ◌∷◌, ◌++◌, Option, none,
  some, ◌==◌, if◌then◌else◌, Bytes, codes, is_empty, beq,
}
use nawa.Common.Table.{text_eq, lookup}
use nawa.Common.Result.{Result, ok, err, ◌>>=◌, catch_invalid, undefined, unfinished}
use nawa.Common.Number.{stoul, to_string, time_le, add_time}
use nawa.Util.Strings.{hex_dump}
use nawa.Config.{Config}
use nawa.Config
use nawa.Request.Env
use nawa.Request.Gpc
use nawa.Connection.State.{Connection, Session, Cookie, off, lax, strict}
use nawa.Connection.Response.{set_cookie, unset_cookie}
use nawa.Session.Store.{Store, set_expires, remove, create, collect_garbage}

-- What a call reads from outside: the clock, the random numbers of each attempt at a new ID and of
-- the garbage collection, and OpenSSL's SHA-1 as a function to its 20 bytes.
pub record World : Type 0 where
  pub now : ℕ
  pub id_draws : ℕ → ℕ × ℕ
  pub gc_draw : ℕ
  pub sha1 : Bytes → Bytes

abbrev pub remote_addr : Connection → Bytes
remote_addr c = Env.get c.request.env (codes "REMOTE_ADDR")

abbrev pub session_config : Connection → Bytes → Bytes
session_config c name = Config.get c.config (codes "session") name

abbrev pub is_some {ℓ} : {A : Type ℓ} → Option A → Bool
is_some none = false
is_some (some a) = true

-- `established()`: whether the pointer is set.
unfoldable pub established : Connection → Bool
established c = is_some c.session.current_data

unfoldable pub get_id : Connection → Bytes
unfolding established
get_id c = if established c then c.session.current_id else []

-- A number from the configuration, with a default where it is empty or no number. A number that is
-- too large for `unsigned long` throws an exception that is not caught.
unfoldable pub setting : Bytes → ℕ → Result ℕ
setting value default = if is_empty value then ok default else catch_invalid (stoul value) default

unfoldable pub keepalive_of : Connection → Option ℕ → Result ℕ
keepalive_of c (some keepalive) = ok keepalive
keepalive_of c none = setting (session_config c (codes "keepalive")) 1800

unfoldable pub generate_id : World → Bytes → ℕ → Bytes
generate_id w remote_address i =
    let (a, b) = w.id_draws i in hex_dump (w.sha1 (to_string a ++ to_string b ++ remote_address))

-- `do { … } while (sessionData.count(sessionId) > 0)`, from attempt `i`, for as many attempts as
-- there is fuel.
pub fresh_id : World → Bytes → List (Bytes × ℕ) → ℕ → ℕ → Option Bytes
fresh_id w remote_address table zero i = none
fresh_id w remote_address table (suc fuel) i =
    let id = generate_id w remote_address i in
    let rest = fresh_id w remote_address table fuel (suc i) in
    if is_some (lookup id table) then rest else some id

-- The check of a given session ID: the pointer of the session that is resumed, if any.
pub check_found : Connection → ℕ → ℕ → Bytes → ℕ → Store → Store × Option ℕ
check_found c now keepalive session_id p st =
    let validate_ip = session_config c (codes "validate_ip") in
    let is_strict = beq validate_ip (codes "strict") in
    if time_le (st.objects p).expires now
    then (remove session_id st, none)
    else if (is_strict || beq validate_ip (codes "lax"))
        && not (beq (st.objects p).source_ip (remote_addr c))
    then (if is_strict then (remove session_id st, none) else (st, none))
    else (set_expires p (add_time now keepalive) st, some p)

unfoldable pub check_id : Connection → ℕ → ℕ → Bytes → Store → Store × Option ℕ
check_id c now keepalive session_id st =
    if is_empty session_id then (st, none) else elim (lookup session_id st.session_data) [
      | none ↦ (st, none)
      | some p ↦ check_found c now keepalive session_id p st
    ]

abbrev pub attach : ℕ → Bytes → Connection → Connection
attach p id c = record c { session = record (c.session) { current_data = some p; current_id = id } }

-- Garbage is collected in one of `gc_divisor` calls; a divisor of 0 divides by zero.
unfoldable pub run_gc : World → ℕ → Store → Result Store
run_gc w zero st = err undefined
run_gc w (suc d) st = ok (if (w.gc_draw % suc d) == 0 then collect_garbage w.now st else st)

-- The end of `start`. An exception leaves the store and the connection as they are by then.
pub finish : World → Bytes → Store → Connection → Store × Connection × Result Bytes
finish w id st c =
    elim (setting (session_config c (codes "gc_divisor")) 100 >>= λ divisor. run_gc w divisor st) [
      | ok st' ↦ (st', c, ok id)
      | err e ↦ (st, c, err e)
    ]

-- `start(sessionId, keepalive)`; `fuel` bounds the attempts at a new ID.
pub start_new : World → ℕ → ℕ → Store → Connection → Store × Connection × Result Bytes
start_new w fuel keepalive st c = elim (fresh_id w (remote_addr c) st.session_data fuel 0) [
  | none ↦ (st, c, err unfinished)
  | some id ↦
      finish w id (create id (remote_addr c) (add_time w.now keepalive) st) (attach st.next id c)
]

pub start_checked :
    World → ℕ → ℕ → Bytes → Store × Option ℕ → Connection → Store × Connection × Result Bytes
start_checked w fuel keepalive session_id (st, none) c = start_new w fuel keepalive st c
start_checked w fuel keepalive session_id (st, some p) c =
    finish w session_id st (attach p session_id c)

unfoldable pub start_id :
    World → ℕ → Bytes → Option ℕ → Store → Connection → Store × Connection × Result Bytes
start_id w fuel session_id keepalive st c =
    if established c then (st, c, ok c.session.current_id) else elim (keepalive_of c keepalive) [
      | err e ↦ (st, c, err e)
      | ok k ↦ start_checked w fuel k session_id (check_id c w.now k session_id st) c
    ]

-- Unfolding this name opens `start_id` and all that it calls, for runs on concrete inputs.
unfoldable pub start_code : Unit {0}
unfolding start_id established keepalive_of setting check_id check_found start_checked start_new
    fresh_id generate_id finish run_gc
start_code = tt
