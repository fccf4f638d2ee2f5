-- ===== src/Nawarun/Privileges.antt =====
-- `preparePrivilegeDowngrade` and `doPrivilegeDowngrade` of src/nawarun/nawarun.cpp.
use nawa.Common.{
  ℕ, Bool, true, false, not, ◌&&◌, ◌||◌, List, [], ◌∷◌, ◌++◌, Option, none, some, ◌==◌,
  if◌then◌else◌, Bytes, codes, arith, ◌≡◌, refl, inl, inr, Bool-cases, Option-cases,
}
use nawa.Common.Result.{Result, ok, err, exception}
use nawa.Config.{Config}
use nawa.Config

-- The system's users and groups. `getgrouplist` is `none` where its two calls do not agree.
pub record Accounts : Type 0 where
  pub getuid : ℕ
  pub getpwnam : Bytes → Option ℕ
  pub getgrnam : Bytes → Option ℕ
  pub getgrouplist : Bytes → ℕ → Option (List ℕ)

pub record PrivilegeDowngrade : Type 0 where
  pub uid : ℕ
  pub gid : ℕ
  pub supplementary_groups : List ℕ

or_own : ℕ → Option (List ℕ) → List ℕ
or_own gid none = gid ∷ []
or_own gid (some groups) = groups

-- No list is asked for where the user or the group is root.
groups_of : Accounts → Bytes → ℕ → ℕ → List ℕ
unfolding or_own
groups_of a username uid gid =
    if uid == 0 || gid == 0 then [] else or_own gid (a.getgrouplist username gid)

downgrade_to : Accounts → Bytes → Option ℕ → Option ℕ → Result PrivilegeDowngrade
unfolding groups_of
downgrade_to a username (some uid) (some gid) =
    ok (record { uid = uid; gid = gid; supplementary_groups = groups_of a username uid gid })
downgrade_to a username (some uid) none = err (exception 2)
downgrade_to a username none group = err (exception 2)

some_downgrade : Result PrivilegeDowngrade → Result (Option PrivilegeDowngrade)
some_downgrade (ok d) = ok (some d)
some_downgrade (err e) = err e

-- What the program is to become, if it runs as root.
unfoldable pub prepare_privilege_downgrade : Accounts → Config → Result (Option PrivilegeDowngrade)
unfolding downgrade_to some_downgrade
prepare_privilege_downgrade a config =
    let category = codes "privileges" in
    let user = Config.get config category (codes "user") in
    let group = Config.get config category (codes "group") in
    if not (a.getuid == 0)
    then ok none
    else if not (Config.is_set (category, codes "user") config)
        || not (Config.is_set (category, codes "group") config)
    then err (exception 1)
    else some_downgrade (downgrade_to a user (a.getpwnam user) (a.getgrnam group))

pub data Syscall : Type 0 where
  setgroups : List ℕ → Syscall
  setgid setuid : ℕ → Syscall

-- The calls in their order, up to the first that fails, and whether the program goes on.
unfoldable pub calls_up_to : (Syscall → Bool) → List Syscall → List Syscall × Bool
calls_up_to allows [] = ([], true)
calls_up_to allows (c ∷ calls) =
    let (done, goes_on) = calls_up_to allows calls in
    if allows c then (c ∷ done, goes_on) else (c ∷ [], false)

unfoldable pub do_privilege_downgrade : (Syscall → Bool) → PrivilegeDowngrade → List Syscall × Bool
do_privilege_downgrade allows d = calls_up_to allows (
    (if not (d.uid == 0) && not (d.gid == 0) then setgroups d.supplementary_groups ∷ [] else [])
    ++ setgid d.gid ∷ setuid d.uid ∷ [])

-- The supplementary groups of a user, if neither the user nor the group is root.
pub supplementary_groups_of : Accounts → Bytes → ℕ → List ℕ
supplementary_groups_of a username gid = elim (a.getgrouplist username gid) [
  | none ↦ gid ∷ []
  | some groups ↦ groups
]

own_lem :
    (gid : ℕ) (list : Option (List ℕ))
    → or_own gid list ≡ elim list [ none ↦ gid ∷ [] | some groups ↦ groups ]
unfolding or_own
own_lem gid none = refl
own_lem gid (some groups) = refl

groups_lem :
    (a : Accounts) (username : Bytes) (uid gid : ℕ)
    → (not (uid == 0) && not (gid == 0)) ≡ true
    → groups_of a username uid gid ≡ supplementary_groups_of a username gid
unfolding groups_of supplementary_groups_of
groups_lem a username uid gid h =
    let neither : (uid == 0 || gid == 0) ≡ false = ground arith in
    rw neither (own_lem gid (a.getgrouplist username gid))

-- What has been prepared for root is what the accounts say of the user and the group of the
-- configuration.
pub prepare_privilege_downgrade_lem :
    (a : Accounts) (config : Config) (downgrade : Option PrivilegeDowngrade)
    → (a.getuid == 0) ≡ true
    → prepare_privilege_downgrade a config ≡ ok downgrade
    → (d : PrivilegeDowngrade) × (downgrade ≡ some d)
      × (a.getpwnam (Config.get config (codes "privileges") (codes "user")) ≡ some d.uid)
      × (a.getgrnam (Config.get config (codes "privileges") (codes "group")) ≡ some d.gid)
      × ((not (d.uid == 0) && not (d.gid == 0)) ≡ true
          → d.supplementary_groups
            ≡ supplementary_groups_of a
                (Config.get config (codes "privileges") (codes "user"))
                d.gid)
unfolding prepare_privilege_downgrade downgrade_to some_downgrade
prepare_privilege_downgrade_lem a config downgrade is_root h =
    let user = Config.get config (codes "privileges") (codes "user") in
    let group = Config.get config (codes "privileges") (codes "group") in
    elim (Bool-cases (
      not (Config.is_set (codes "privileges", codes "user") config)
      || not (Config.is_set (codes "privileges", codes "group") config))) [
        | inl missing ↦ cc (rw (is_root, missing, prepare_privilege_downgrade) at h)
        | inr there ↦ elim (Option-cases (a.getpwnam user)) [
          | inl u ↦ cc (rw (is_root, there, u, prepare_privilege_downgrade) at h)
          | inr (uid, u) ↦ elim (Option-cases (a.getgrnam group)) [
            | inl g ↦ cc (rw (is_root, there, u, g, prepare_privilege_downgrade) at h)
            | inr (gid, g) ↦ (
              record { uid = uid; gid = gid; supplementary_groups = groups_of a user uid gid },
              cc (rw (is_root, there, u, g, prepare_privilege_downgrade) at h),
              u,
              g,
              groups_lem a user uid gid,
            )
          ]
        ]
      ]
