-- ===== src/Filter/Apply.antt =====
-- `Connection::applyFilters` of src/connection/Connection.cpp: block filters, then the first
-- authentication filter that applies, then forward filters. The result says whether the request has
-- been answered, so that the application is not called.
pub mod Laws
pub mod Auth
pub mod Keeps
use nawa.Common.{
  ℕ, zero, suc, ◌+◌, Bool, true, false, not, ◌&&◌, ◌||◌, List, [], ◌∷◌, ◌++◌, Option, none, some,
  ◌==◌, if◌then◌else◌, length, is_empty, get_elem?, Bytes, codes, beq,
}
use nawa.Common.Result.{Result, ok, err, ◌>>=◌, out_of_range}
use nawa.Common.Number.{to_string}
use nawa.Util.Strings.{split_string}
use nawa.Util.ErrorPage.{generate_error_page}
use nawa.Util.Time.{Tm}
use nawa.Request.Env
use nawa.Connection.State.{Connection, new_cookie}
use nawa.Connection.Response.{set_status, set_response_body, set_header}
use nawa.Session.Store.{Store, AnyValue, text}
use nawa.Session.Start.{World}
use nawa.Session.Cookies.{start_cookie}
use nawa.Session.Values.{is_set, set}
use nawa.Filter.Types.{
  AccessFilter, BlockFilter, AuthFilter, ForwardFilter, BasePathExtension, by_path, by_filename,
  AccessFilterList,
}
use nawa.Filter.Matching.{matches, passes, last_element, path_string}
use nawa.Filter.SendFile.{FileInfo, send_file}

-- What the filters use from outside: what a session start uses, the files, the calendar, and the
-- decoder of libs/base64.
pub record Outside : Type 0 where
  pub world : World
  pub fuel : ℕ
  pub open_file : Bytes → Option FileInfo
  pub gmtime : ℕ → Option Tm
  pub base64_decode : Bytes → Bytes

-- Whether a filter applies: it matches and is not inverted, or it does not match and is.
unfoldable pub applies : AccessFilter → List Bytes → Result Bool
applies f path = matches f path >>= λ m. ok (passes m f.invert)

-- The first filter that applies, with its position. An exception ends the search.
unfoldable pub first_applying :
    {F : Type 0} → (F → AccessFilter) → List Bytes → ℕ → List F → Result (Option (ℕ × F))
first_applying base path i [] = ok none
first_applying base path i (f ∷ fs) =
    let rest = first_applying base path (i + 1) fs in
    applies (base f) path >>= λ here. if here then ok (some (i, f)) else rest

-- The page of a filter that has no response of its own is generated.
abbrev pub page : Bytes → ℕ → Bytes
page response status = if is_empty response then generate_error_page status else response

abbrev pub answer : ℕ → Bytes → Connection → Connection
answer status body c = set_response_body body (set_status status c)

pub session_key : ℕ → Bytes
session_key i = codes "_nawa_authfilter" ++ to_string i

-- `credentials.size() == 2`.
pub pair_of : List Bytes → Option (Bytes × Bytes)
pair_of (a ∷ b ∷ []) = some (a, b)
pair_of _ = none

-- `authResponse.at(0)` is read only if the size is not 2, and `at(1)` where the test passes.
pub authorization_token : List Bytes → Result (Option Bytes)
authorization_token (a ∷ b ∷ []) = ok (some b)
authorization_token [] = err out_of_range
authorization_token (a ∷ []) = if beq a (codes "Basic") then err out_of_range else ok none
authorization_token (a ∷ b ∷ d ∷ rest) = ok (if beq a (codes "Basic") then some b else none)

-- The user name, if the authentication function accepts the credentials.
pub accept : Option (Bytes → Bytes → Bool) → Option (Bytes × Bytes) → Option Bytes
accept none pair = none
accept (some check) none = none
accept (some check) (some (user, password)) = if check user password then some user else none

module _ (o : Outside) where
  open o use {world, fuel, open_file, gmtime, base64_decode}

  pub credentials : Bytes → Result (Option (Bytes × Bytes))
  credentials authorization =
      authorization_token (split_string authorization b' ' true) >>= λ token.
      ok (elim token [ none ↦ none | some t ↦ pair_of (split_string (base64_decode t) b':' true) ])

  -- The session is started, if the filter uses sessions, and asked whether it is authenticated.
  pub auth_session : AuthFilter → ℕ → Store → Connection → Store × Connection × Result Bool
  auth_session f i st c =
      if f.use_sessions
      then (let (st', c', r) = start_cookie world fuel (new_cookie []) st c in
          (st', c', r >>= λ _. ok (is_set st' c' (session_key i))))
      else (st, c, ok false)

  pub request_authentication : AuthFilter → Connection → Connection
  request_authentication f c =
      let realm =
        if is_empty f.auth_name then [] else codes " realm=\"" ++ (f.auth_name ++ b'"' ∷ []) in
      set_header (codes "www-authenticate") (codes "Basic" ++ realm) (set_status 401 c)

  pub remember : AuthFilter → ℕ → Bytes → Store → Connection → Store × Connection × Result Bool
  remember f i user st c =
      if f.use_sessions
      then (let (st', r) = set (session_key i) (text user) st c in (st', c, r >>= λ _. ok false))
      else (st, c, ok false)

  -- The client sent credentials; `true` means that the request is answered.
  pub check_credentials :
      AuthFilter → ℕ → Bytes → Store → Connection → Store × Connection × Result Bool
  check_credentials f i authorization st c = elim (credentials authorization) [
    | err e ↦ (st, c, err e)
    | ok pair ↦ elim (accept f.auth_function pair) [
      | none ↦ (st, answer 403 (page f.filter.response 403) c, ok true)
      | some user ↦ remember f i user st c
    ]
  ]

  pub auth_missing : AuthFilter → ℕ → Store → Connection → Store × Connection × Result Bool
  auth_missing f i st c =
      let authorization = Env.get c.request.env (codes "authorization") in
      if is_empty authorization
      then (st, request_authentication f c, ok true)
      else check_credentials f i authorization st c

  pub auth_continue :
      AuthFilter → ℕ → Store × Connection × Result Bool → Store × Connection × Result Bool
  auth_continue f i (st, c, err e) = (st, c, err e)
  auth_continue f i (st, c, ok true) = (st, c, ok false)
  auth_continue f i (st, c, ok false) = auth_missing f i st c

  unfoldable pub apply_auth : AuthFilter → ℕ → Store → Connection → Store × Connection × Result Bool
  apply_auth f i st c = auth_continue f i (auth_session f i st c)

  -- The path of the file: below the base path, by the whole request path or its last element.
  pub file_path : ForwardFilter → List Bytes → Result Bytes
  file_path f path = elim f.base_path_extension [
    | by_path ↦ ok (f.base_path ++ path_string path)
    | by_filename ↦ last_element path >>= λ e. ok (f.base_path ++ b'/' ∷ e)
  ]

  pub forward_file : ForwardFilter → Bytes → Connection → Connection
  forward_file f name c =
      let (c', r) = send_file gmtime open_file name [] false [] true c in
      elim r [ ok _ ↦ c' | err e ↦ answer 404 (page f.filter.response 404) c' ]

  unfoldable pub apply_forward :
      List ForwardFilter → List Bytes → Connection → Connection × Result Bool
  apply_forward fs path c = elim (first_applying (λ f. f.filter) path 0 fs) [
    | err e ↦ (c, err e)
    | ok none ↦ (c, ok false)
    | ok (some (i, f)) ↦ elim (file_path f path) [
      | err e ↦ (c, err e)
      | ok name ↦ (forward_file f name c, ok true)
    ]
  ]

  pub after_auth :
      List ForwardFilter
      → List Bytes
      → Store × Connection × Result Bool
      → Store × Connection × Result Bool
  after_auth fs path (st, c, err e) = (st, c, err e)
  after_auth fs path (st, c, ok true) = (st, c, ok true)
  after_auth fs path (st, c, ok false) = let (c', r) = apply_forward fs path c in (st, c', r)

  pub auth_stage :
      List AuthFilter → List Bytes → Store → Connection → Store × Connection × Result Bool
  auth_stage fs path st c = elim (first_applying (λ f. f.filter) path 0 fs) [
    | err e ↦ (st, c, err e)
    | ok none ↦ (st, c, ok false)
    | ok (some (i, f)) ↦ apply_auth f i st c
  ]

  unfoldable pub apply_filters :
      AccessFilterList → Store → Connection → Store × Connection × Result Bool
  apply_filters fs st c =
      let path = Env.get_request_path c.request.env in
      if not fs.filters_enabled
      then (st, c, ok false)
      else elim (first_applying (λ f. f.filter) path 0 fs.block_filters) [
        | err e ↦ (st, c, err e)
        | ok (some (i, f)) ↦ (st, answer f.status (page f.filter.response f.status) c, ok true)
        | ok none ↦ after_auth fs.forward_filters path (auth_stage fs.auth_filters path st c)
      ]

-- Unfolding this name opens `apply_filters` and its parts, for runs on concrete inputs.
unfoldable pub apply_code : Unit {0}
unfolding apply_filters first_applying applies session_key pair_of authorization_token accept
    credentials auth_session request_authentication remember check_credentials auth_missing
    auth_continue apply_auth file_path forward_file apply_forward after_auth auth_stage
apply_code = tt
