-- ===== src/Nawarun/Run/Order.antt =====
-- In which order privileges are dropped and the application runs.
use nawa.Common.{
  ℕ, ◌≡◌, refl, sym, ap, ◌∙◌, none, Bool, true, false, not, ◌&&◌, List, [], ◌∷◌, ◌++◌, map, Option,
  some, ◌==◌, if◌then◌else◌, inl, inr, Bool-cases, codes,
}
use nawa.Common.Result.{
  Result, ok, err, exception, invalid_argument, out_of_range, undefined, unfinished,
}
use nawa.Config.{Config}
use nawa.Config
use nawa.Nawarun.CommandLine.{Parameters}
use nawa.Nawarun.Settings.{load_config, set_termination_timeout, get_concurrency}
use nawa.Nawarun.App.{InitFunction, new_app_init, load_app_functions}
use nawa.Nawarun.Privileges.{
  PrivilegeDowngrade, Syscall, setgroups, setgid, setuid, prepare_privilege_downgrade,
  do_privilege_downgrade, calls_up_to, prepare_privilege_downgrade_lem, supplementary_groups_of,
}
use nawa.Nawarun.Run.{
  System, Event, set_logging, open_sockets, call, call_init, reconfigure_handler, start_handler,
  join_handler, Ran, or_exit, or_throw, after, run_app, run_downgraded, run_configured, run,
}

pub data Stage : Type 0 where
  root groups_set group_set dropped : Stage

-- What a program that runs as root is to become, and which system calls are allowed.
pub record Target : Type 0 where
  pub allows : Syscall → Bool
  pub user : Option ℕ
  pub group : Option ℕ
  pub groups : ℕ → List ℕ

is_nonroot : Option ℕ → Bool
is_nonroot none = false
is_nonroot (some id) = not (id == 0)

-- The stage in which the group is set: behind the supplementary groups, unless the user or the group
-- that is wanted is root.
before_setgid : Target → Stage
unfolding is_nonroot
before_setgid t = if is_nonroot t.user && is_nonroot t.group then groups_set else root

-- What follows a call: nothing if it has failed.
Goes : Bool → Type 0 → List Event → Type 0
Goes true rest events = rest
Goes false rest events = events ≡ []

-- Sockets are opened as root. The supplementary groups are set, then the group, then the user, each
-- once and to those that are wanted; a call that fails is the last event. The application is
-- initialised, and the handler configured, started and joined, after all of these have succeeded.
pub Ordered : Target → Stage → List Event → Type 0
unfolding Goes
Ordered t stage [] = Unit
Ordered t stage (set_logging config ∷ events) = Ordered t stage events
Ordered t stage (open_sockets ∷ events) = (stage ≡ root) × Ordered t stage events
Ordered t stage (call (setgroups gs) ∷ events) =
    (stage ≡ root)
    × (before_setgid t ≡ groups_set)
    × ((gid : ℕ) → t.group ≡ some gid → gs ≡ t.groups gid)
    × Goes (t.allows (setgroups gs)) (Ordered t groups_set events) events
Ordered t stage (call (setgid gid) ∷ events) =
    (stage ≡ before_setgid t)
    × (t.group ≡ some gid)
    × Goes (t.allows (setgid gid)) (Ordered t group_set events) events
Ordered t stage (call (setuid uid) ∷ events) =
    (stage ≡ group_set)
    × (t.user ≡ some uid)
    × Goes (t.allows (setuid uid)) (Ordered t dropped events) events
Ordered t stage (call_init ∷ events) = (stage ≡ dropped) × Ordered t stage events
Ordered t stage (reconfigure_handler init ∷ events) = (stage ≡ dropped) × Ordered t stage events
Ordered t stage (start_handler ∷ events) = (stage ≡ dropped) × Ordered t stage events
Ordered t stage (join_handler ∷ events) = (stage ≡ dropped) × Ordered t stage events

allowed-Goes :
    (b : Bool) (rest : Type 0) (events : List Event) → b ≡ true → rest → Goes b rest events
unfolding Goes
allowed-Goes true rest events h r = r
allowed-Goes false rest events h r = cc

refused-Goes :
    (b : Bool) (rest : Type 0) (events : List Event) → b ≡ false → events ≡ [] → Goes b rest events
unfolding Goes
refused-Goes true rest events h r = cc
refused-Goes false rest events h r = r

or_throw-Ordered {ℓ} :
    {A : Type ℓ} (t : Target) (stage : Stage) (r : Result A) (next : A → Ran)
    → ((a : A) → r ≡ ok a → Ordered t stage (next a).0)
    → Ordered t stage (or_throw r next).0
unfolding or_throw Ordered
or_throw-Ordered t stage (ok a) next h = h a refl
or_throw-Ordered t stage (err e) next h = tt

or_exit-Ordered {ℓ} :
    {A : Type ℓ} (t : Target) (stage : Stage) (r : Result A) (next : A → Ran)
    → ((a : A) → r ≡ ok a → Ordered t stage (next a).0)
    → Ordered t stage (or_exit r next).0
unfolding or_exit Ordered
or_exit-Ordered t stage (ok a) next h = h a refl
or_exit-Ordered t stage (err (exception n)) next h = tt
or_exit-Ordered t stage (err invalid_argument) next h = tt
or_exit-Ordered t stage (err out_of_range) next h = tt
or_exit-Ordered t stage (err undefined) next h = tt
or_exit-Ordered t stage (err unfinished) next h = tt

run_app-Ordered :
    (t : Target) (init : InitFunction) (config : Config) (concurrency : ℕ)
    → Ordered t dropped (run_app init config concurrency).0
unfolding run_app after Ordered
run_app-Ordered t init config concurrency =
    elim (Bool-cases ((init (new_app_init config concurrency)).1 == 0)) [
      | inl success ↦ rw success (refl, (refl, (refl, (refl, tt))))
      | inr failed ↦ rw failed (refl, tt)
    ]

-- The calls `setgid` and `setuid`, with what follows where both are allowed.
ids-Ordered :
    (t : Target) (uid gid : ℕ) (stage : Stage) (rest : Bool → Ran)
    → stage ≡ before_setgid t
    → t.user ≡ some uid
    → t.group ≡ some gid
    → Ordered t dropped (rest true).0
    → (rest false).0 ≡ []
    → let (calls, goes_on) = calls_up_to t.allows (setgid gid ∷ setuid uid ∷ []) in
      Ordered t stage (map call calls ++ (rest goes_on).0)
unfolding calls_up_to Ordered
ids-Ordered t uid gid stage rest s u g more stop = elim (Bool-cases (t.allows (setgid gid))) [
  | inr refused ↦ rw refused (s, g, refused-Goes _ _ _ refused stop)
  | inl set ↦ elim (Bool-cases (t.allows (setuid uid))) [
    | inr refused ↦
        rw (set, refused) (s, g, allowed-Goes _ _ _ set (refl, u, refused-Goes _ _ _ refused stop))
    | inl both ↦
        rw (set, both) (s, g, allowed-Goes _ _ _ set (refl, u, allowed-Goes _ _ _ both more))
  ]
]

groups-Ordered :
    (t : Target) (gs : List ℕ) (calls : List Syscall) (rest : Bool → Ran)
    → before_setgid t ≡ groups_set
    → ((gid : ℕ) → t.group ≡ some gid → gs ≡ t.groups gid)
    → (rest false).0 ≡ []
    → Ordered t groups_set
        (map call (calls_up_to t.allows calls).0 ++ (rest (calls_up_to t.allows calls).1).0)
    → let (done, goes_on) = calls_up_to t.allows (setgroups gs ∷ calls) in
      Ordered t root (map call done ++ (rest goes_on).0)
unfolding calls_up_to Ordered
groups-Ordered t gs calls rest before wanted stop more =
    elim (Bool-cases (t.allows (setgroups gs))) [
      | inr refused ↦ rw refused (refl, before, wanted, refused-Goes _ _ _ refused stop)
      | inl set ↦ rw set (refl, before, wanted, allowed-Goes _ _ _ set more)
    ]

before_lem :
    (t : Target) (uid gid : ℕ)
    → t.user ≡ some uid
    → t.group ≡ some gid
    → before_setgid t ≡ (if not (uid == 0) && not (gid == 0) then groups_set else root)
unfolding before_setgid is_nonroot
before_lem t uid gid u g = rw (u, g) refl

run_downgraded-Ordered :
    (t : Target) (d : PrivilegeDowngrade) (init : InitFunction) (config : Config) (concurrency : ℕ)
    → t.user ≡ some d.uid
    → t.group ≡ some d.gid
    → ((not (d.uid == 0) && not (d.gid == 0)) ≡ true → d.supplementary_groups ≡ t.groups d.gid)
    → Ordered t root (run_downgraded t.allows (some d) init config concurrency).0
unfolding run_downgraded do_privilege_downgrade after
run_downgraded-Ordered t d init config concurrency u g wanted =
    let rest : Bool → Ran =
      λ goes_on. if goes_on then run_app init config concurrency else ([], ok 1) in
    let ids = λ (stage : Stage) (s : stage ≡ before_setgid t).
      ids-Ordered t d.uid d.gid stage rest s u g (run_app-Ordered t init config concurrency) refl in
    let before = before_lem t d.uid d.gid u g in
    elim (Bool-cases (not (d.uid == 0) && not (d.gid == 0))) [
      | inr kept ↦ rw (kept, do_privilege_downgrade) (ids root (sym (before ∙ rw kept refl)))
      | inl lists ↦
          let first : before_setgid t ≡ groups_set = before ∙ rw lists refl in
          let same_groups : (gid : ℕ) → t.group ≡ some gid → d.supplementary_groups ≡ t.groups gid =
            λ gid e. (let same : d.gid ≡ gid = cc (g, e) in wanted lists ∙ ap t.groups same) in
          rw (lists, do_privilege_downgrade)
            (groups-Ordered t d.supplementary_groups (setgid d.gid ∷ setuid d.uid ∷ []) rest first
              same_groups refl (ids groups_set (sym first)))
    ]

-- What the accounts say of the user and the group of a configuration.
abbrev pub target : System → Config → Target
target s config =
    let user = Config.get config (codes "privileges") (codes "user") in
    record {
      allows = s.allows;
      user = s.accounts.getpwnam user;
      group = s.accounts.getgrnam (Config.get config (codes "privileges") (codes "group"));
      groups = supplementary_groups_of s.accounts user;
    }

run_configured-Ordered :
    (s : System) (config : Config)
    → (s.accounts.getuid == 0) ≡ true
    → Ordered (target s config) root (run_configured s config).0
unfolding run_configured after Ordered
run_configured-Ordered s config is_root =
    let t = target s config in
    or_throw-Ordered t root (set_termination_timeout config 10) _ (λ timeout h.
      or_exit-Ordered t root (prepare_privilege_downgrade s.accounts config) _ (λ downgrade p.
        or_exit-Ordered t root (load_app_functions s.loader config) _ (λ app h.
          or_throw-Ordered t root (get_concurrency s.doubles config) _ (λ concurrency h.
            or_exit-Ordered t root (s.new_handler config concurrency) _ (λ made h.
              (let (d, e, u, g, wanted) =
                  prepare_privilege_downgrade_lem s.accounts config downgrade is_root p in
                (refl, rw e (run_downgraded-Ordered t d app.0 config concurrency u g wanted))))))))

-- Started as root, and where the configuration can be loaded, the program does these things in this
-- order, as far as it comes: it opens its sockets, sets the supplementary groups, unless the user or
-- the group that the configuration names is root, and then the group and the user, all to what the
-- accounts say of these names. Only if all of these calls have succeeded does it initialise the
-- application, and configure, start and join the request handler; a call that fails is the last
-- thing that it does.
pub run-Ordered :
    (s : System) (parameters : Parameters) (file : Config)
    → (s.accounts.getuid == 0) ≡ true
    → load_config s.ini_parse parameters.config_file ≡ some file
    → Ordered
        (target s (Config.override parameters.config_overrides file))
        root
        (run s parameters).0
unfolding run
run-Ordered s parameters file is_root loaded =
    let config = Config.override parameters.config_overrides file in
    rw (loaded, run) (run_configured-Ordered s config is_root)
