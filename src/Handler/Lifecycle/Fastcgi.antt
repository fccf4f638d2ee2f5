-- ===== src/Handler/Lifecycle/Fastcgi.antt =====
-- The lifecycle of src/RequestHandler/impl/FastcgiRequestHandler.cpp.
use nawa.Common.{
  ◌≡◌, refl, ap, ◌∙◌, arith, Bool, true, false, not, ◌&&◌, List, [], ◌∷◌, ◌++◌, if◌then◌else◌, inl,
  inr, Bool-cases,
}
use nawa.Common.Result.{Result, ok, err, exception}
use nawa.Handler.Lifecycle.{
  Phase, phase_of, Call, launch, stop_server, terminate_server, await, Luck, Command, start_with,
  stop_now, terminate_now, join_now, start, join, step, Handler,
}

-- The manager is a pointer, here whether it is set.
pub record FastcgiData : Type 0 where
  pub has_manager : Bool
  pub request_handling_active : Bool
  pub joined : Bool

unfoldable pub fastcgi_start : Luck → FastcgiData → FastcgiData × List Call × Result (Unit {0})
fastcgi_start luck d =
    if d.request_handling_active
    then (d, [], ok tt)
    else if d.joined
    then (d, [], err (exception 10))
    else if not d.has_manager
    then (d, [], err (exception 2))
    else if luck 0
    then (record d { request_handling_active = true }, launch ∷ [], ok tt)
    else (d, [], err (exception 1))

-- `stop` and `terminate`, with the call of each.
unfoldable pub fastcgi_tell : Call → FastcgiData → FastcgiData × List Call
fastcgi_tell call d = (d, if not d.joined && d.has_manager then call ∷ [] else [])

unfoldable pub fastcgi_join : FastcgiData → FastcgiData × List Call
fastcgi_join d =
    if not d.joined && d.has_manager
    then (record d { joined = true; has_manager = false }, await ∷ [])
    else (d, [])

-- The calls of the destructor.
unfoldable pub fastcgi_drop : FastcgiData → List Call
fastcgi_drop d =
    (if d.request_handling_active && not d.joined then terminate_server ∷ [] else [])
    ++ (if d.joined then [] else await ∷ [])

unfoldable pub fastcgi_exec : Command → FastcgiData → FastcgiData × List Call × Result (Unit {0})
fastcgi_exec (start_with luck) d = fastcgi_start luck d
fastcgi_exec stop_now d = let (d', calls) = fastcgi_tell stop_server d in (d', calls, ok tt)
fastcgi_exec terminate_now d =
    let (d', calls) = fastcgi_tell terminate_server d in (d', calls, ok tt)
fastcgi_exec join_now d = let (d', calls) = fastcgi_join d in (d', calls, ok tt)

abbrev pub fastcgi_phase : FastcgiData → Phase
fastcgi_phase d = phase_of d.request_handling_active d.joined

-- The manager is there until it is joined.
abbrev pub IsSound : FastcgiData → Type 0
IsSound d = d.has_manager ≡ not d.joined

start-IsSound : (luck : Luck) (d : FastcgiData) → IsSound d → IsSound (fastcgi_start luck d).0
unfolding fastcgi_start
start-IsSound luck d sound = ground arith

join-IsSound : (d : FastcgiData) → IsSound d → IsSound (fastcgi_join d).0
unfolding fastcgi_join
join-IsSound d sound = ground arith

start_lem :
    (luck : Luck) (d : FastcgiData)
    → IsSound d
    → let (d', calls, r) = fastcgi_start luck d in
      (fastcgi_phase d', r) ≡ start (luck 0) (fastcgi_phase d)
unfolding fastcgi_start phase_of start
start_lem luck d sound = elim (Bool-cases d.request_handling_active) [
  | inl active ↦ elim (Bool-cases d.joined) [
    | inl over ↦ rw (active, over, fastcgi_start) refl
    | inr going ↦ rw (active, going, fastcgi_start) refl
  ]
  | inr still ↦ elim (Bool-cases d.joined) [
    | inl over ↦ rw (still, over, fastcgi_start) refl
    | inr going ↦
        let there = sound ∙ ap not going in
        elim (Bool-cases (luck 0)) [
          | inl done ↦ rw (still, going, there, done, fastcgi_start) refl
          | inr failed ↦ rw (still, going, there, failed, fastcgi_start) refl
        ]
  ]
]

join_lem : (d : FastcgiData) → IsSound d → fastcgi_phase (fastcgi_join d).0 ≡ join (fastcgi_phase d)
unfolding fastcgi_join join phase_of
join_lem d sound = elim (Bool-cases d.joined) [
  | inl over ↦ elim (Bool-cases d.request_handling_active) [
    | inl active ↦ rw (over, active, fastcgi_join) refl
    | inr still ↦ rw (over, still, fastcgi_join) refl
  ]
  | inr going ↦
      let there = sound ∙ ap not going in
      elim (Bool-cases d.request_handling_active) [
        | inl active ↦ rw (going, active, there, fastcgi_join) refl
        | inr still ↦ rw (going, still, there, fastcgi_join) refl
      ]
]

pub exec-IsSound :
    (command : Command) (d : FastcgiData) → IsSound d → IsSound (fastcgi_exec command d).0
unfolding fastcgi_exec fastcgi_tell
exec-IsSound (start_with luck) d sound = start-IsSound luck d sound
exec-IsSound stop_now d sound = sound
exec-IsSound terminate_now d sound = sound
exec-IsSound join_now d sound = join-IsSound d sound

pub exec_lem :
    (command : Command) (d : FastcgiData)
    → IsSound d
    → let (d', calls, r) = fastcgi_exec command d in
      (fastcgi_phase d', r) ≡ step (λ luck. luck 0) command (fastcgi_phase d)
unfolding fastcgi_exec fastcgi_tell step
exec_lem (start_with luck) d sound = start_lem luck d sound
exec_lem stop_now d sound = refl
exec_lem terminate_now d sound = refl
exec_lem join_now d sound = ap (λ p. (p, ok tt)) (join_lem d sound)

-- The FastCGI handler keeps the promise.
abbrev pub fastcgi_lifecycle : Handler
fastcgi_lifecycle = record {
  State = FastcgiData;
  IsSound = IsSound;
  phase = fastcgi_phase;
  works = λ d luck. luck 0;
  exec = fastcgi_exec;
  exec-IsSound = exec-IsSound;
  exec_lem = exec_lem;
  works-exec = λ command d. refl;
}
