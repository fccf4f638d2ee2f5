-- ===== src/Handler/Lifecycle/Http.antt =====
-- The lifecycle of src/RequestHandler/impl/HttpRequestHandler.cpp.
use nawa.Common.{
  ℕ, zero, suc, ◌+◌, ◌≡◌, refl, ap, ◌∙◌, arith, Bool, true, false, not, ◌&&◌, List, [], ◌∷◌, ◌++◌,
  if◌then◌else◌, inl, inr, Bool-cases,
}
use nawa.Common.Result.{Result, ok, err, exception}
use nawa.Handler.Lifecycle.{
  Phase, phase_of, Call, launch, stop_server, await, Luck, Command, start_with, stop_now,
  terminate_now, join_now, start, join, step, Handler,
}

-- The server is a pointer, here whether it is set; `threads` is the size of the thread pool.
pub record HttpData : Type 0 where
  pub has_server : Bool
  pub concurrency : ℕ
  pub threads : ℕ
  pub request_handling_active : Bool
  pub joined : Bool

-- The loop of `start`: how many threads it makes, and whether it comes to its end.
unfoldable pub launch_threads : Luck → ℕ → ℕ → ℕ × Bool
launch_threads luck i zero = (0, true)
launch_threads luck i (suc n) =
    let (k, done) = launch_threads luck (i + 1) n in if luck i then (suc k, done) else (0, false)

unfoldable pub repeat {ℓ} : {A : Type ℓ} → ℕ → A → List A
repeat zero a = []
repeat (suc n) a = a ∷ repeat n a

unfoldable pub http_start : Luck → HttpData → HttpData × List Call × Result (Unit {0})
http_start luck d =
    let (k, done) = launch_threads luck 0 d.concurrency in
    let launched = record d { threads = d.threads + k } in
    if d.request_handling_active
    then (d, [], ok tt)
    else if d.joined
    then (d, [], err (exception 10))
    else if not d.has_server
    then (d, [], err (exception 2))
    else if done
    then (record launched { request_handling_active = true }, repeat k launch, ok tt)
    else (launched, repeat k launch, err (exception 1))

-- `stop`, and `terminate`, which does the same.
unfoldable pub http_stop : HttpData → HttpData × List Call
http_stop d = (d, if not d.joined && d.has_server then stop_server ∷ [] else [])

unfoldable pub http_join : HttpData → HttpData × List Call
http_join d =
    if d.joined then (d, []) else (record d { joined = true; threads = 0 }, repeat d.threads await)

-- The calls of the destructor.
unfoldable pub http_drop : HttpData → List Call
http_drop d =
    (if d.request_handling_active && not d.joined then stop_server ∷ [] else [])
    ++ (if d.joined then [] else repeat d.threads await)

unfoldable pub http_exec : Command → HttpData → HttpData × List Call × Result (Unit {0})
http_exec (start_with luck) d = http_start luck d
http_exec stop_now d = let (d', calls) = http_stop d in (d', calls, ok tt)
http_exec terminate_now d = let (d', calls) = http_stop d in (d', calls, ok tt)
http_exec join_now d = let (d', calls) = http_join d in (d', calls, ok tt)

abbrev pub http_phase : HttpData → Phase
http_phase d = phase_of d.request_handling_active d.joined

start_lem :
    (luck : Luck) (d : HttpData)
    → d.has_server ≡ true
    → let (d', calls, r) = http_start luck d in
      (http_phase d', r) ≡ start (launch_threads luck 0 d.concurrency).1 (http_phase d)
unfolding http_start phase_of start
start_lem luck d there = elim (Bool-cases d.request_handling_active) [
  | inl active ↦ elim (Bool-cases d.joined) [
    | inl over ↦ rw (active, over, http_start) refl
    | inr going ↦ rw (active, going, http_start) refl
  ]
  | inr still ↦ elim (Bool-cases d.joined) [
    | inl over ↦ rw (still, over, http_start) refl
    | inr going ↦ elim (Bool-cases (launch_threads luck 0 d.concurrency).1) [
      | inl done ↦ rw (still, going, there, done, http_start) refl
      | inr failed ↦ rw (still, going, there, failed, http_start) refl
    ]
  ]
]

-- What no operation changes.
abbrev Same : HttpData → HttpData → Type 0
Same d' d = (d'.has_server ≡ d.has_server) × (d'.concurrency ≡ d.concurrency)

start-Same : (luck : Luck) (d : HttpData) → Same (http_start luck d).0 d
unfolding http_start
start-Same luck d = ground arith

join-Same : (d : HttpData) → Same (http_join d).0 d
unfolding http_join
join-Same d = ground arith

abbrev pub IsSound : HttpData → Type 0
IsSound d = d.has_server ≡ true

pub exec-IsSound : (command : Command) (d : HttpData) → IsSound d → IsSound (http_exec command d).0
unfolding http_exec http_stop
exec-IsSound (start_with luck) d there = (start-Same luck d).0 ∙ there
exec-IsSound stop_now d there = there
exec-IsSound terminate_now d there = there
exec-IsSound join_now d there = (join-Same d).0 ∙ there

join_lem : (d : HttpData) → http_phase (http_join d).0 ≡ join (http_phase d)
unfolding http_join join phase_of
join_lem d = elim (Bool-cases d.joined) [
  | inl over ↦ elim (Bool-cases d.request_handling_active) [
    | inl active ↦ rw (over, active, http_join) refl
    | inr still ↦ rw (over, still, http_join) refl
  ]
  | inr going ↦ elim (Bool-cases d.request_handling_active) [
    | inl active ↦ rw (going, active, http_join) refl
    | inr still ↦ rw (going, still, http_join) refl
  ]
]

pub exec_lem :
    (command : Command) (d : HttpData)
    → IsSound d
    → let (d', calls, r) = http_exec command d in
      (http_phase d', r)
      ≡ step (λ luck. (launch_threads luck 0 d.concurrency).1) command (http_phase d)
unfolding http_exec http_stop step
exec_lem (start_with luck) d there = start_lem luck d there
exec_lem stop_now d there = refl
exec_lem terminate_now d there = refl
exec_lem join_now d there = ap (λ p. (p, ok tt)) (join_lem d)

abbrev pub http_works : HttpData → Luck → Bool
http_works d luck = (launch_threads luck 0 d.concurrency).1

pub works-exec :
    (command : Command) (d : HttpData) → http_works (http_exec command d).0 ≡ http_works d
unfolding http_exec http_stop
works-exec (start_with luck) d = ap (λ n luck. (launch_threads luck 0 n).1) (start-Same luck d).1
works-exec stop_now d = refl
works-exec terminate_now d = refl
works-exec join_now d = ap (λ n luck. (launch_threads luck 0 n).1) (join-Same d).1

-- The HTTP handler keeps the promise.
abbrev pub http_lifecycle : Handler
http_lifecycle = record {
  State = HttpData;
  IsSound = IsSound;
  phase = http_phase;
  works = http_works;
  exec = http_exec;
  exec-IsSound = exec-IsSound;
  exec_lem = exec_lem;
  works-exec = works-exec;
}
