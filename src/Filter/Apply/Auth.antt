-- ===== src/Filter/Apply/Auth.antt =====
-- What it takes to get past the filters: no block filter, credentials or a session, no forward filter.
use nawa.Common.{
  ℕ, ◌≡◌, refl, ap, ◌∙◌, Bool, true, false, List, Option, none, some, arith, inl, inr, ◌⊎◌,
  Bool-cases, Option-cases, All, is_empty, Bytes, codes,
}
use nawa.Common.Result.{Result, ok, err, Result-cases}
use nawa.Request.Env
use nawa.Connection.State.{Connection}
use nawa.Session.Store.{Store}
use nawa.Session.Values.{is_set}
use nawa.Filter.Types.{BlockFilter, AuthFilter, ForwardFilter, AccessFilterList}
use nawa.Filter.Apply.{
  Outside, first_applying, session_key, credentials, accept, auth_session, check_credentials,
  auth_missing, auth_continue, apply_auth, auth_stage, file_path, apply_forward, after_auth,
  apply_filters,
}
use nawa.Filter.Apply.Laws.{Skipped, FirstAt, first_applying-none, first_applying-some}

abbrev Outcome : Type 0
Outcome = Store × Connection × Result Bool

module _ (o : Outside) where
  -- The authentication function accepts the credentials of the request.
  abbrev pub Accepted : AuthFilter → Connection → Type 0
  Accepted f c =
      (check : Bytes → Bytes → Bool) × (user : Bytes) × (password : Bytes) × (f.auth_function
        ≡ some check)
      × (credentials o (Env.get c.request.env (codes "authorization")) ≡ ok (some (user, password)))
      × (check user password ≡ true)

  -- The session that the filter starts remembers an earlier success with this filter.
  abbrev pub Remembered : AuthFilter → ℕ → Store → Connection → Type 0
  Remembered f i st c =
      let (st', c', r) = auth_session o f i st c in
      (f.use_sessions ≡ true) × (is_set st' c' (session_key i) ≡ true)

  accept-some :
      (g : Option (Bytes → Bytes → Bool)) (pair : Option (Bytes × Bytes)) (name : Bytes)
      → accept g pair ≡ some name
      → (check : Bytes → Bytes → Bool) × (user : Bytes) × (password : Bytes) × (g ≡ some check)
        × (pair ≡ some (user, password))
        × (check user password ≡ true)
  unfolding accept
  accept-some none pair name h = cc
  accept-some (some check) none name h = cc
  accept-some (some check) (some (user, password)) name h =
      (check, user, password, refl, refl, ground arith)

  check_credentials-Accepted :
      (f : AuthFilter) (i : ℕ) (authorization : Bytes) (st : Store) (c : Connection)
      → (check_credentials o f i authorization st c).2 ≡ ok false
      → (check : Bytes → Bytes → Bool) × (user : Bytes) × (password : Bytes) × (f.auth_function
          ≡ some check)
        × (credentials o authorization ≡ ok (some (user, password)))
        × (check user password ≡ true)
  unfolding check_credentials
  check_credentials-Accepted f i authorization st c h =
      elim (Result-cases (credentials o authorization)) [
        | inr (e, k) ↦ cc (rw (k, check_credentials) at h)
        | inl (pair, k) ↦ elim (Option-cases (accept f.auth_function pair)) [
          | inl e ↦ cc (rw (k, e, check_credentials) at h)
          | inr (name, e) ↦
              let (check, user, password, p, q, r) = accept-some f.auth_function pair name e in
              (check, user, password, p, k ∙ ap ok q, r)
        ]
      ]

  -- What is left of a session start that succeeded.
  started-is_set :
      (f : AuthFilter) (i : ℕ) (st : Store) (c : Connection)
      → (auth_session o f i st c).2 ≡ ok true
      → Remembered f i st c
  unfolding auth_session
  started-is_set f i st c h = ground arith

  auth_continue-ok :
      (f : AuthFilter) (i : ℕ) (r : Outcome)
      → (auth_continue o f i r).2 ≡ ok false
      → (r.2 ≡ ok true) ⊎ Accepted f r.1
  unfolding auth_continue auth_missing
  auth_continue-ok f i (st, c, err e) h = cc
  auth_continue-ok f i (st, c, ok true) h = inl refl
  auth_continue-ok f i (st, c, ok false) h =
      let authorization = Env.get c.request.env (codes "authorization") in
      elim (Bool-cases (is_empty authorization)) [
        | inl e ↦ cc (rw (e, auth_missing) at h)
        | inr e ↦
            inr (check_credentials-Accepted f i authorization st c (rw (e, auth_missing) at h))
      ]

  apply_auth-ok :
      (f : AuthFilter) (i : ℕ) (st : Store) (c : Connection)
      → (apply_auth o f i st c).2 ≡ ok false
      → Remembered f i st c ⊎ Accepted f (auth_session o f i st c).1
  unfolding apply_auth
  apply_auth-ok f i st c h = elim (auth_continue-ok f i (auth_session o f i st c) h) [
    | inl e ↦ inl (started-is_set f i st c e)
    | inr a ↦ inr a
  ]

  auth_stage-ok :
      (fs : List AuthFilter) (path : List Bytes) (st : Store) (c : Connection)
      → (auth_stage o fs path st c).2 ≡ ok false
      → All (Skipped (λ (a : AuthFilter). a.filter) path) fs
        ⊎ ((i : ℕ) × (f : AuthFilter) × FirstAt (λ (a : AuthFilter). a.filter) path 0 fs i f
            × (Remembered f i st c ⊎ Accepted f (auth_session o f i st c).1))
  unfolding auth_stage
  auth_stage-ok fs path st c h =
      elim (Result-cases (first_applying (λ (a : AuthFilter). a.filter) path 0 fs)) [
        | inr (e, k) ↦ cc (rw (k, auth_stage) at h)
        | inl (none, k) ↦ inl (first_applying-none (λ (a : AuthFilter). a.filter) path 0 fs k)
        | inl (some (i, f), k) ↦ inr (
          i,
          f,
          first_applying-some (λ (a : AuthFilter). a.filter) path 0 fs i f k,
          apply_auth-ok f i st c (rw (k, auth_stage) at h),
        )
      ]

  apply_forward-ok :
      (fs : List ForwardFilter) (path : List Bytes) (c : Connection)
      → (apply_forward o fs path c).1 ≡ ok false
      → All (Skipped (λ (a : ForwardFilter). a.filter) path) fs
        × ((apply_forward o fs path c).0 ≡ c)
  unfolding apply_forward
  apply_forward-ok fs path c h =
      elim (Result-cases (first_applying (λ (a : ForwardFilter). a.filter) path 0 fs)) [
        | inr (e, k) ↦ cc (rw (k, apply_forward) at h)
        | inl (none, k) ↦ (
          first_applying-none (λ (a : ForwardFilter). a.filter) path 0 fs k,
          rw (k, apply_forward) refl,
        )
        | inl (some (i, f), k) ↦ elim (Result-cases (file_path o f path)) [
          | inr (e, l) ↦ cc (rw (k, l, apply_forward) at h)
          | inl (name, l) ↦ cc (rw (k, l, apply_forward) at h)
        ]
      ]

  after_auth-ok :
      (fs : List ForwardFilter) (path : List Bytes) (r : Outcome)
      → (after_auth o fs path r).2 ≡ ok false
      → (r.2 ≡ ok false) × All (Skipped (λ (a : ForwardFilter). a.filter) path) fs
  unfolding after_auth
  after_auth-ok fs path (st, c, err e) h = cc
  after_auth-ok fs path (st, c, ok true) h = cc
  after_auth-ok fs path (st, c, ok false) h = (refl, (apply_forward-ok fs path c h).0)

  -- A request that the filters let through to the application, with filters switched on, is one that
  -- no block filter and no forward filter applies to; and if an authentication filter applies, then
  -- the first such filter has accepted the credentials of the request, or uses sessions and the
  -- session that it started remembers an earlier success with this filter.
  pub apply_filters_pass :
      (fs : AccessFilterList) (st : Store) (c : Connection)
      → fs.filters_enabled ≡ true
      → (apply_filters o fs st c).2 ≡ ok false
      → let path = Env.get_request_path c.request.env in
        All (Skipped (λ b. b.filter) path) fs.block_filters
        × All (Skipped (λ a. a.filter) path) fs.forward_filters
        × (All (Skipped (λ a. a.filter) path) fs.auth_filters
            ⊎ ((i : ℕ) × (f : AuthFilter) × FirstAt (λ a. a.filter) path 0 fs.auth_filters i f
                × (Remembered f i st c ⊎ Accepted f (auth_session o f i st c).1)))
  unfolding apply_filters
  apply_filters_pass fs st c on h =
      let path = Env.get_request_path c.request.env in
      elim (Result-cases (first_applying (λ (b : BlockFilter). b.filter) path 0 fs.block_filters)) [
        | inr (e, k) ↦ cc (rw (on, k, apply_filters) at h)
        | inl (some (i, f), k) ↦ cc (rw (on, k, apply_filters) at h)
        | inl (none, k) ↦
            let (a, forwards) =
              after_auth-ok fs.forward_filters path _ (rw (on, k, apply_filters) at h) in
            (
              first_applying-none (λ (b : BlockFilter). b.filter) path 0 fs.block_filters k,
              forwards,
              auth_stage-ok fs.auth_filters path st c a,
            )
      ]
