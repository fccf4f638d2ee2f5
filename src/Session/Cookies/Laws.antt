-- ===== src/Session/Cookies/Laws.antt =====
-- The session cookie that `Session::start(Cookie)` sets, and what it keeps.
use nawa.Common.{
  ℕ, ◌≡◌, ◌≢◌, refl, sym, ap, subst, ◌∙◌, Bool, true, false, not, ◌||◌, Option, some, inl, inr,
  Bool-cases, Bytes, codes, beq, beq_iff, beq_refl,
}
use nawa.Common.Table.{text_eq, lookup, lookup-assign}
use nawa.Common.Result.{ok, err, Result-cases}
use nawa.Config
use nawa.Request.Gpc
use nawa.Connection.State.{Connection, Cookie}
use nawa.Connection.Response.{set_cookie, all_of, is_key_char, is_content_char}
use nawa.Session.Store.{Store}
use nawa.Session.Invariant.{Valid}
use nawa.Session.Start.{World, session_config, established, keepalive_of, finish, start_id, attach}
use nawa.Session.Start.Cases.{Outcome, finish_cases, start_new_cases, start_id_cases}
use nawa.Session.Start.Keeps.{start_id-Valid}
use nawa.Session.Cookies.{cookie_name_of, cookie_of, name_cookie, send_cookie, start_cookie}

-- `start` changes nothing of the configuration and of the name of the session cookie.
abbrev Keeps : Connection → Outcome → Type 0
Keeps c r = (r.1.config ≡ c.config) × (r.1.session.cookie_name ≡ c.session.cookie_name)

finish-Keeps :
    (w : World) (id : Bytes) (st : Store) (c d : Connection)
    → Keeps c (st, d, ok id)
    → Keeps c (finish w id st d)
finish-Keeps w id st c d k = finish_cases (Keeps c) w id st d (λ e. k) k k

start_id-Keeps :
    (w : World) (fuel : ℕ) (id : Bytes) (keepalive : Option ℕ) (st : Store) (c : Connection)
    → established c ≡ false
    → Keeps c (start_id w fuel id keepalive st c)
start_id-Keeps w fuel id keepalive st c fresh =
    start_id_cases (Keeps c) w fuel id keepalive st c fresh (λ e. (refl, refl))
      (λ k p _ _ _ _. finish-Keeps w id _ c (attach p id c) (refl, refl))
      (λ k st' _ _.
        start_new_cases (Keeps c) w fuel k st' c (refl, refl)
          λ new _. finish-Keeps w new _ c (attach st'.next new c) (refl, refl))

send_cookie-store :
    (w : World) (k : ℕ) (properties : Cookie) (r : Outcome) → (send_cookie w k properties r).0 ≡ r.0
unfolding send_cookie
send_cookie-store w k properties (st, c, err e) = refl
send_cookie-store w k properties (st, c, ok id) = refl

-- Whatever it ends with, `start` with a cookie keeps the session table well-formed.
pub start_cookie-Valid :
    (w : World) (fuel : ℕ) (properties : Cookie) (st : Store) (c : Connection)
    → Valid st
    → Valid (start_cookie w fuel properties st c).0
unfolding start_cookie
start_cookie-Valid w fuel properties st c v = elim (Bool-cases (established c)) [
  | inl old ↦ rw (old, start_cookie) v
  | inr fresh ↦
      let named = name_cookie (cookie_name_of c) c in
      elim (Result-cases (keepalive_of named properties.max_age)) [
        | inr (e, h) ↦ rw (fresh, h, start_cookie) v
        | inl (k, h) ↦
            rw (fresh, h, start_cookie)
              (subst Valid (sym (send_cookie-store w k properties _))
                (start_id-Valid w fuel _ (some k) st named v))
      ]
]

-- What the cookie of the response is.
abbrev pub SendsCookie : Connection → Connection → Type 0
SendsCookie c c' =
    (cookie : Cookie) × (lookup (cookie_name_of c) c'.cookies ≡ some cookie)
    × (cookie.content ≡ c'.session.current_id)
    × (session_config c (codes "cookie_secure") ≢ codes "off" → cookie.secure ≡ true)
    × (session_config c (codes "cookie_httponly") ≢ codes "off" → cookie.http_only ≡ true)

set_cookie-ok :
    (name : Bytes) (cookie : Cookie) (c : Connection)
    → (set_cookie name cookie c).1 ≡ ok tt
    → (lookup name (set_cookie name cookie c).0.cookies ≡ some cookie)
      × ((set_cookie name cookie c).0.session ≡ c.session)
unfolding set_cookie
set_cookie-ok name cookie c h =
    elim (Bool-cases
      (not (all_of is_key_char name) || not (all_of is_content_char cookie.content))) [
        | inl refused ↦ cc (rw refused at h)
        | inr fine ↦
            rw fine (rw (lookup-assign name name cookie c.cookies, beq_refl name) refl, refl)
      ]

not_off : (v : Bytes) (b : Bool) → v ≢ codes "off" → (b || not (beq v (codes "off"))) ≡ true
not_off v true h = refl
not_off v false h = elim (Bool-cases (beq v (codes "off"))) [
  | inl e ↦ absurd (h ((beq_iff v (codes "off")).0 e))
  | inr e ↦ rw e refl
]

same_config :
    (c d : Connection) (key : Bytes)
    → d.config ≡ c.config
    → session_config c key ≡ session_config d key
same_config c d key e = ap (λ g. Config.get g (codes "session") key) (sym e)

cookie_of-content :
    (c : Connection) (now k : ℕ) (id : Bytes) (properties : Cookie)
    → let cookie = cookie_of c now k id properties in
      (cookie.content ≡ id)
      × (session_config c (codes "cookie_secure") ≢ codes "off" → cookie.secure ≡ true)
      × (session_config c (codes "cookie_httponly") ≢ codes "off" → cookie.http_only ≡ true)
unfolding cookie_of
cookie_of-content c now k id properties =
    (refl, not_off _ properties.secure, not_off _ properties.http_only)

send_cookie-SendsCookie :
    (w : World) (k : ℕ) (properties : Cookie) (c : Connection) (r : Outcome)
    → r.1.config ≡ c.config
    → r.1.session.cookie_name ≡ cookie_name_of c
    → (send_cookie w k properties r).2 ≡ ok tt
    → SendsCookie c (send_cookie w k properties r).1
unfolding send_cookie
send_cookie-SendsCookie w k properties c (st, d, err e) kept name h = cc
send_cookie-SendsCookie w k properties c (st, d, ok id) kept name h =
    let d' = record d { session = record (d.session) { current_id = id } } in
    let cookie = cookie_of d' w.now k id properties in
    let (found, same) = set_cookie-ok d.session.cookie_name cookie d' h in
    let (content, secure, http_only) = cookie_of-content d' w.now k id properties in
    (
      cookie,
      ap (λ n. lookup n (set_cookie d.session.cookie_name cookie d').0.cookies) (sym name) ∙ found,
      content ∙ sym (ap (λ s. s.current_id) same),
      (λ on. secure λ e. on (same_config c d' (codes "cookie_secure") kept ∙ e)),
      (λ on. http_only λ e. on (same_config c d' (codes "cookie_httponly") kept ∙ e)),
    )

pub start_cookie-SendsCookie :
    (w : World) (fuel : ℕ) (properties : Cookie) (st : Store) (c : Connection)
    → established c ≡ false
    → (start_cookie w fuel properties st c).2 ≡ ok tt
    → SendsCookie c (start_cookie w fuel properties st c).1
unfolding start_cookie
start_cookie-SendsCookie w fuel properties st c fresh done =
    let named = name_cookie (cookie_name_of c) c in
    elim (Result-cases (keepalive_of named properties.max_age)) [
      | inr (e, h) ↦ cc (rw (fresh, h, start_cookie) at done)
      | inl (k, h) ↦
          let r =
            start_id w fuel (Gpc.get named.request.cookie (cookie_name_of c)) (some k) st named in
          let (config, name) =
            start_id-Keeps w fuel _ (some k) st named (unfold established in fresh) in
          rw (fresh, h, start_cookie)
            (send_cookie-SendsCookie w k properties c r config name
              (rw (fresh, h, start_cookie) at done))
    ]
