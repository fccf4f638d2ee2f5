-- ===== src/Handler/Lifecycle/History.antt =====
-- The state of both request handlers by the commands that they have been given.
use nawa.Common.{ℕ, ◌≡◌, refl, sym, ap, ◌∙◌, Bool, true, false, ◌||◌, List, [], ◌∷◌, if◌then◌else◌}
use nawa.Common.Result.{Result, ok, err, exception}
use nawa.Handler.Lifecycle.{
  Phase, idle, running, idle_joined, running_joined, phase_of, Luck, Command, start_with, stop_now,
  terminate_now, join_now, start, join, step, Handler, exec_all, promise_all, exec_all-promise_all,
}
use nawa.Handler.Lifecycle.Http.{HttpData, http_exec, launch_threads, http_lifecycle}
use nawa.Handler.Lifecycle.Fastcgi.{FastcgiData, fastcgi_exec, fastcgi_lifecycle}

-- Whether a start that works has been told before the first join.
unfoldable pub has_started : (Luck → Bool) → List Command → Bool
has_started works [] = false
has_started works (start_with luck ∷ commands) = works luck || has_started works commands
has_started works (stop_now ∷ commands) = has_started works commands
has_started works (terminate_now ∷ commands) = has_started works commands
has_started works (join_now ∷ commands) = false

unfoldable pub has_joined : List Command → Bool
has_joined [] = false
has_joined (start_with luck ∷ commands) = has_joined commands
has_joined (stop_now ∷ commands) = has_joined commands
has_joined (terminate_now ∷ commands) = has_joined commands
has_joined (join_now ∷ commands) = true

-- What a start is answered with then.
unfoldable pub start_answer : Bool → Bool → Bool → Result (Unit {0})
start_answer true joined works = ok tt
start_answer false true works = err (exception 10)
start_answer false false works = if works then ok tt else err (exception 1)

module _ (works : Luck → Bool) where
  ends_running_joined :
      (commands : List Command) → (promise_all works commands running_joined).0 ≡ running_joined
  unfolding promise_all step start join
  ends_running_joined [] = refl
  ends_running_joined (start_with luck ∷ commands) = ends_running_joined commands
  ends_running_joined (stop_now ∷ commands) = ends_running_joined commands
  ends_running_joined (terminate_now ∷ commands) = ends_running_joined commands
  ends_running_joined (join_now ∷ commands) = ends_running_joined commands

  ends_idle_joined :
      (commands : List Command) → (promise_all works commands idle_joined).0 ≡ idle_joined
  unfolding promise_all step start join
  ends_idle_joined [] = refl
  ends_idle_joined (start_with luck ∷ commands) = ends_idle_joined commands
  ends_idle_joined (stop_now ∷ commands) = ends_idle_joined commands
  ends_idle_joined (terminate_now ∷ commands) = ends_idle_joined commands
  ends_idle_joined (join_now ∷ commands) = ends_idle_joined commands

  from_running :
      (commands : List Command)
      → (promise_all works commands running).0 ≡ phase_of true (has_joined commands)
  unfolding promise_all step start join phase_of has_joined
  from_running [] = refl
  from_running (start_with luck ∷ commands) = from_running commands
  from_running (stop_now ∷ commands) = from_running commands
  from_running (terminate_now ∷ commands) = from_running commands
  from_running (join_now ∷ commands) = ends_running_joined commands

  after_start :
      (b : Bool) (commands : List Command)
      → (promise_all works commands idle).0
        ≡ phase_of (has_started works commands) (has_joined commands)
      → (promise_all works commands (start b idle).0).0
        ≡ phase_of (b || has_started works commands) (has_joined commands)
  unfolding start
  after_start true commands h = from_running commands
  after_start false commands h = h

  from_idle :
      (commands : List Command)
      → (promise_all works commands idle).0
        ≡ phase_of (has_started works commands) (has_joined commands)
  unfolding promise_all step join phase_of has_started has_joined
  from_idle [] = refl
  from_idle (start_with luck ∷ commands) = after_start (works luck) commands (from_idle commands)
  from_idle (stop_now ∷ commands) = from_idle commands
  from_idle (terminate_now ∷ commands) = from_idle commands
  from_idle (join_now ∷ commands) = ends_idle_joined commands

active_of : Phase → Bool
active_of idle = false
active_of running = true
active_of idle_joined = false
active_of running_joined = true

joined_of : Phase → Bool
joined_of idle = false
joined_of running = false
joined_of idle_joined = true
joined_of running_joined = true

flags_lem : (a j : Bool) → (active_of (phase_of a j) ≡ a) × (joined_of (phase_of a j) ≡ j)
unfolding active_of joined_of phase_of
flags_lem true true = (refl, refl)
flags_lem true false = (refl, refl)
flags_lem false true = (refl, refl)
flags_lem false false = (refl, refl)

same_flags : (a j b k : Bool) → phase_of a j ≡ phase_of b k → (a ≡ b) × (j ≡ k)
same_flags a j b k e = (
  sym (flags_lem a j).0 ∙ ap active_of e ∙ (flags_lem b k).0,
  sym (flags_lem a j).1 ∙ ap joined_of e ∙ (flags_lem b k).1,
)

start-answer : (b a j : Bool) → (start b (phase_of a j)).1 ≡ start_answer a j b
unfolding start phase_of start_answer
start-answer b true true = refl
start-answer b true false = refl
start-answer b false true = refl
start-answer true false false = refl
start-answer false false false = refl

module _ (h : Handler) where
  exec_all-IsSound :
      (commands : List Command) (s : h.State)
      → h.IsSound s
      → h.IsSound (exec_all h.exec commands s).0
  unfolding exec_all
  exec_all-IsSound [] s sound = sound
  exec_all-IsSound (command ∷ commands) s sound =
      exec_all-IsSound commands (h.exec command s).0 (h.exec-IsSound command s sound)

  works-exec_all :
      (commands : List Command) (s : h.State) → h.works (exec_all h.exec commands s).0 ≡ h.works s
  unfolding exec_all
  works-exec_all [] s = refl
  works-exec_all (command ∷ commands) s =
      works-exec_all commands (h.exec command s).0 ∙ h.works-exec command s

  phase-exec_all :
      (commands : List Command) (s : h.State)
      → h.IsSound s
      → h.phase s ≡ idle
      → h.phase (exec_all h.exec commands s).0
        ≡ phase_of (has_started (h.works s) commands) (has_joined commands)
  phase-exec_all commands s sound fresh =
      ap (λ x. x.0) (exec_all-promise_all h commands s sound)
      ∙ ap (λ p. (promise_all (h.works s) commands p).0) fresh
      ∙ from_idle (h.works s) commands

  start-exec_all :
      (commands : List Command) (luck : Luck) (s : h.State)
      → h.IsSound s
      → h.phase s ≡ idle
      → (h.exec (start_with luck) (exec_all h.exec commands s).0).2
        ≡ start_answer (has_started (h.works s) commands) (has_joined commands) (h.works s luck)
  unfolding step
  start-exec_all commands luck s sound fresh =
      let s' = (exec_all h.exec commands s).0 in
      let started = has_started (h.works s) commands in
      ap (λ x. x.1) (h.exec_lem (start_with luck) s' (exec_all-IsSound commands s sound))
      ∙ ap (λ w. (start (w luck) (h.phase s')).1) (works-exec_all commands s)
      ∙ ap (λ p. (start (h.works s luck) p).1) (phase-exec_all commands s sound fresh)
      ∙ start-answer (h.works s luck) started (has_joined commands)

-- Handlers as their constructors leave them.
abbrev pub new_http : ℕ → HttpData
new_http concurrency = record {
  has_server = true;
  concurrency = concurrency;
  threads = 0;
  request_handling_active = false;
  joined = false;
}

abbrev pub new_fastcgi : FastcgiData
new_fastcgi = record { has_manager = true; request_handling_active = false; joined = false }

-- Whatever a new handler has been told, `requestHandlingActive` holds exactly if a start that works
-- was told before the first join, `joined` exactly if there was a join, and a start is answered by
-- these two: it returns if requests have been handled, joined or not, throws exception 10 if the
-- handler was joined without that, and else returns or throws exception 1 as the start works or
-- fails. It is so for the HTTP handler, where a start works if all its threads can be launched, and
-- for the FastCGI handler, where it works if the manager starts.
pub exec_all-history :
    (commands : List Command) (luck : Luck) (concurrency : ℕ)
    → let d = (exec_all http_exec commands (new_http concurrency)).0 in
      let works = λ (l : Luck). (launch_threads l 0 concurrency).1 in
      let e = (exec_all fastcgi_exec commands new_fastcgi).0 in
      let starts = λ (l : Luck). l 0 in
      ((d.request_handling_active ≡ has_started works commands)
        × (d.joined ≡ has_joined commands)
        × ((http_exec (start_with luck) d).2
            ≡ start_answer (has_started works commands) (has_joined commands) (works luck)))
      × ((e.request_handling_active ≡ has_started starts commands)
          × (e.joined ≡ has_joined commands)
          × ((fastcgi_exec (start_with luck) e).2
              ≡ start_answer (has_started starts commands) (has_joined commands) (luck 0)))
unfolding phase_of
exec_all-history commands luck concurrency =
    let d = (exec_all http_exec commands (new_http concurrency)).0 in
    let works = λ (l : Luck). (launch_threads l 0 concurrency).1 in
    let e = (exec_all fastcgi_exec commands new_fastcgi).0 in
    let starts = λ (l : Luck). l 0 in
    let (a, j) =
      same_flags d.request_handling_active d.joined (has_started works commands)
        (has_joined commands)
        (phase-exec_all http_lifecycle commands (new_http concurrency) refl refl) in
    let (b, k) =
      same_flags e.request_handling_active e.joined (has_started starts commands)
        (has_joined commands) (phase-exec_all fastcgi_lifecycle commands new_fastcgi refl refl) in
    (
      (a, j, start-exec_all http_lifecycle commands luck (new_http concurrency) refl refl),
      (b, k, start-exec_all fastcgi_lifecycle commands luck new_fastcgi refl refl),
    )
