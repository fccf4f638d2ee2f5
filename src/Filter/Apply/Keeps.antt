-- ===== src/Filter/Apply/Keeps.antt =====
-- Whatever the filters do with a request, the session table stays well-formed.
use nawa.Common.{
  ℕ, Bool, true, false, List, [], inl, inr, Bool-cases, Option-cases, is_empty, Bytes, codes,
}
use nawa.Common.Result.{Result, ok, err, Result-cases}
use nawa.Connection.State.{Connection, new_cookie}
use nawa.Session.Store.{Store, text}
use nawa.Session.Invariant.{Valid}
use nawa.Session.Cookies.Laws.{start_cookie-Valid}
use nawa.Session.Values.Laws.{set-Valid}
use nawa.Request.Env
use nawa.Filter.Types.{AuthFilter, ForwardFilter, AccessFilterList}
use nawa.Filter.Apply.{
  Outside, first_applying, session_key, credentials, accept, auth_session, remember,
  check_credentials, auth_missing, auth_continue, apply_auth, after_auth, auth_stage, apply_filters,
}

abbrev Keeps : Store × Connection × Result Bool → Type 0
Keeps (st, c, r) = Valid st

module _ (o : Outside) where
  open o use {world, fuel}

  auth_session-Keeps :
      (f : AuthFilter) (i : ℕ) (st : Store) (c : Connection)
      → Valid st
      → Keeps (auth_session o f i st c)
  unfolding auth_session
  auth_session-Keeps f i st c v = elim (Bool-cases f.use_sessions) [
    | inl on ↦ rw (on, auth_session) (start_cookie-Valid world fuel (new_cookie []) st c v)
    | inr off ↦ rw (off, auth_session) v
  ]

  remember-Keeps :
      (f : AuthFilter) (i : ℕ) (user : Bytes) (st : Store) (c : Connection)
      → Valid st
      → Keeps (remember o f i user st c)
  unfolding remember
  remember-Keeps f i user st c v = elim (Bool-cases f.use_sessions) [
    | inl on ↦ rw (on, remember) (set-Valid (session_key i) (text user) st c v)
    | inr off ↦ rw (off, remember) v
  ]

  check_credentials-Keeps :
      (f : AuthFilter) (i : ℕ) (authorization : Bytes) (st : Store) (c : Connection)
      → Valid st
      → Keeps (check_credentials o f i authorization st c)
  unfolding check_credentials
  check_credentials-Keeps f i authorization st c v =
      elim (Result-cases (credentials o authorization)) [
        | inr (e, h) ↦ rw (h, check_credentials) v
        | inl (pair, h) ↦ elim (Option-cases (accept f.auth_function pair)) [
          | inl k ↦ rw (h, k, check_credentials) v
          | inr (user, k) ↦ rw (h, k, check_credentials) (remember-Keeps f i user st c v)
        ]
      ]

  auth_continue-Keeps :
      (f : AuthFilter) (i : ℕ) (x : Store × Connection × Result Bool)
      → Keeps x
      → Keeps (auth_continue o f i x)
  unfolding auth_continue auth_missing
  auth_continue-Keeps f i (st, c, err e) v = v
  auth_continue-Keeps f i (st, c, ok true) v = v
  auth_continue-Keeps f i (st, c, ok false) v =
      let authorization = Env.get c.request.env (codes "authorization") in
      elim (Bool-cases (is_empty authorization)) [
        | inl gone ↦ rw gone v
        | inr there ↦ rw there (check_credentials-Keeps f i authorization st c v)
      ]

  auth_stage-Keeps :
      (fs : List AuthFilter) (path : List Bytes) (st : Store) (c : Connection)
      → Valid st
      → Keeps (auth_stage o fs path st c)
  unfolding auth_stage apply_auth
  auth_stage-Keeps fs path st c v = elim (Result-cases (first_applying (λ f. f.filter) path 0 fs)) [
    | inr (e, h) ↦ rw (h, auth_stage) v
    | inl (found, h) ↦ elim (Option-cases found) [
      | inl k ↦ rw (h, k, auth_stage) v
      | inr ((i, f), k) ↦
          rw (h, k, auth_stage)
            (auth_continue-Keeps f i (auth_session o f i st c) (auth_session-Keeps f i st c v))
    ]
  ]

  after_auth-Keeps :
      (fs : List ForwardFilter) (path : List Bytes) (x : Store × Connection × Result Bool)
      → Keeps x
      → Keeps (after_auth o fs path x)
  unfolding after_auth
  after_auth-Keeps fs path (st, c, err e) v = v
  after_auth-Keeps fs path (st, c, ok true) v = v
  after_auth-Keeps fs path (st, c, ok false) v = v

  pub apply_filters-Valid :
      (fs : AccessFilterList) (st : Store) (c : Connection)
      → Valid st
      → Valid (apply_filters o fs st c).0
  unfolding apply_filters
  apply_filters-Valid fs st c v = elim (Bool-cases fs.filters_enabled) [
    | inr off ↦ rw (off, apply_filters) v
    | inl on ↦
        let path = Env.get_request_path c.request.env in
        elim (Result-cases (first_applying (λ f. f.filter) path 0 fs.block_filters)) [
          | inr (e, h) ↦ rw (on, h, apply_filters) v
          | inl (found, h) ↦ elim (Option-cases found) [
            | inr ((i, f), k) ↦ rw (on, h, k, apply_filters) v
            | inl k ↦
                rw (on, h, k, apply_filters)
                  (after_auth-Keeps fs.forward_filters path (auth_stage o fs.auth_filters path st c)
                    (auth_stage-Keeps fs.auth_filters path st c v))
          ]
        ]
  ]
