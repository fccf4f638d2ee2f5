-- ===== src/Handler/Lifecycle.antt =====
-- `start`, `stop`, `terminate`, `join` and the destructors of the two request handlers: what they
-- promise as phases, and the interface that both fill.
pub mod Http
pub mod Fastcgi
pub mod Threads
pub mod History
use nawa.Common.{ℕ, ◌≡◌, refl, ap, ◌∙◌, Bool, true, false, List, [], ◌∷◌, if◌then◌else◌}
use nawa.Common.Result.{Result, ok, err, exception}

-- A handler that was never started, one that handles requests, and the same after `join`.
pub data Phase : Type 0 where
  idle running idle_joined running_joined : Phase

-- What a handler promises: `start` is an exception after a `join` without a start, and does
-- nothing where requests are or were handled; a failure leaves the handler as it was.
unfoldable pub start : Bool → Phase → Phase × Result (Unit {0})
start works idle = if works then (running, ok tt) else (idle, err (exception 1))
start works running = (running, ok tt)
start works idle_joined = (idle_joined, err (exception 10))
start works running_joined = (running_joined, ok tt)

unfoldable pub join : Phase → Phase
join idle = idle_joined
join running = running_joined
join idle_joined = idle_joined
join running_joined = running_joined

-- The phase of the flags `requestHandlingActive` and `joined`, which both handlers have.
unfoldable pub phase_of : Bool → Bool → Phase
phase_of false false = idle
phase_of true false = running
phase_of false true = idle_joined
phase_of true true = running_joined

-- The calls on the server or manager: a thread or the manager starts, it is told to stop or to
-- terminate, and a thread or the manager is joined.
pub data Call : Type 0 where
  launch stop_server terminate_server await : Call

-- What a start meets: whether its launches succeed, by their number.
abbrev pub Luck : Type 0
Luck = ℕ → Bool

pub data Command : Type 0 where
  start_with : Luck → Command
  stop_now terminate_now join_now : Command

-- What a handler promises for a command.
unfoldable pub step : (Luck → Bool) → Command → Phase → Phase × Result (Unit {0})
step works (start_with luck) p = start (works luck) p
step works stop_now p = (p, ok tt)
step works terminate_now p = (p, ok tt)
step works join_now p = (join p, ok tt)

pub record Handler : Type 1 where
  pub State : Type 0
  pub IsSound : State → Type 0
  pub phase : State → Phase
  pub works : State → Luck → Bool
  pub exec : Command → State → State × List Call × Result (Unit {0})
  pub exec-IsSound : (command : Command) (s : State) → IsSound s → IsSound (exec command s).0
  pub exec_lem :
      (command : Command) (s : State)
      → IsSound s
      → let (s', calls, r) = exec command s in (phase s', r) ≡ step (works s) command (phase s)
  pub works-exec : (command : Command) (s : State) → works (exec command s).0 ≡ works s

-- Commands one after another: what a handler answers, and the state that it ends in.
module _ {S : Type 0} (exec : Command → S → S × List Call × Result (Unit {0})) where
  unfoldable pub exec_all : List Command → S → S × List (Result (Unit {0}))
  exec_all [] s = (s, [])
  exec_all (command ∷ commands) s =
      let (s', calls, r) = exec command s in
      let (s'', answers) = exec_all commands s' in (s'', r ∷ answers)

-- The same for the promise, where `works` says which launches succeed.
unfoldable pub promise_all : (Luck → Bool) → List Command → Phase → Phase × List (Result (Unit {0}))
promise_all works [] p = (p, [])
promise_all works (command ∷ commands) p =
    let (p', r) = step works command p in
    let (p'', answers) = promise_all works commands p' in (p'', r ∷ answers)

-- Any sequence of commands leads a handler through the phases that are promised, with the answers
-- that are promised, from any sound state on.
pub exec_all-promise_all :
    (h : Handler) (commands : List Command) (s : h.State)
    → h.IsSound s
    → let (s', answers) = exec_all h.exec commands s in
      (h.phase s', answers) ≡ promise_all (h.works s) commands (h.phase s)
unfolding exec_all promise_all
exec_all-promise_all h [] s sound = refl
exec_all-promise_all h (command ∷ commands) s sound =
    let (s', calls, r) = h.exec command s in
    let works = h.works s in
    let rest = exec_all-promise_all h commands s' (h.exec-IsSound command s sound) in
    ap (λ x. (x.0, r ∷ x.1))
      (rest ∙ ap (λ w. promise_all w commands (h.phase s')) (h.works-exec command s))
    ∙ ap
        (λ x. let (p, a) = x in let (q, answers) = promise_all works commands p in (q, a ∷ answers))
        (h.exec_lem command s sound)
