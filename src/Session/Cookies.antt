-- ===== src/Session/Cookies.antt =====
-- `Session::start(Cookie)`: the session of the cookie that the client sent, and the cookie that is
-- set in the response.
pub mod Laws
use nawa.Common.{ℕ, Bool, not, ◌||◌, none, some, if◌then◌else◌, Bytes, codes, is_empty, beq}
use nawa.Common.Result.{Result, ok, err}
use nawa.Common.Number.{add_time}
use nawa.Request.Gpc
use nawa.Connection.State.{Connection, Cookie, SameSite, off, lax, strict}
use nawa.Connection.Response.{set_cookie}
use nawa.Session.Store.{Store}
use nawa.Session.Start.{World, session_config, is_some, established, keepalive_of, start_id}

-- The name of the session cookie.
unfoldable pub cookie_name_of : Connection → Bytes
cookie_name_of c =
    let name = session_config c (codes "cookie_name") in
    if is_empty name then codes "SESSION" else name

abbrev is_off : Bytes → Bool
is_off value = beq value (codes "off")

same_site_of : SameSite → Bytes → SameSite
same_site_of lax setting = lax
same_site_of strict setting = strict
same_site_of off setting =
    if beq setting (codes "lax") then lax else if is_off setting then off else strict

-- The cookie of the response: the template, completed from the configuration.
unfoldable pub cookie_of : Connection → ℕ → ℕ → Bytes → Cookie → Cookie
unfolding same_site_of
cookie_of c now keepalive session_id properties =
    let timed =
      is_some properties.expires || not (is_off (session_config c (codes "cookie_expires"))) in
    record properties {
      content = session_id;
      expires = if timed then some (add_time now keepalive) else properties.expires;
      max_age = if timed then some keepalive else none;
      secure = properties.secure || not (is_off (session_config c (codes "cookie_secure")));
      http_only = properties.http_only || not (is_off (session_config c (codes "cookie_httponly")));
      same_site = same_site_of properties.same_site (session_config c (codes "cookie_samesite"));
    }

abbrev pub name_cookie : Bytes → Connection → Connection
name_cookie name c = record c { session = record (c.session) { cookie_name = name } }

send_cookie :
    World → ℕ → Cookie → Store × Connection × Result Bytes → Store × Connection × Result (Unit {0})
unfolding cookie_of
send_cookie w keepalive properties (st, c, err e) = (st, c, err e)
send_cookie w keepalive properties (st, c, ok id) =
    let c' = record c { session = record (c.session) { current_id = id } } in
    let (c'', r) =
      set_cookie c'.session.cookie_name (cookie_of c' w.now keepalive id properties) c' in
    (st, c'', r)

unfoldable pub start_cookie :
    World → ℕ → Cookie → Store → Connection → Store × Connection × Result (Unit {0})
unfolding cookie_name_of established keepalive_of send_cookie
start_cookie w fuel properties st c =
    let name = cookie_name_of c in
    let named = name_cookie name c in
    if established c then (st, c, ok tt) else elim (keepalive_of named properties.max_age) [
      | err e ↦ (st, named, err e)
      | ok k ↦
          send_cookie w k properties
            (start_id w fuel (Gpc.get named.request.cookie name) (some k) st named)
    ]
