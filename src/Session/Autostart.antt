-- ===== src/Session/Autostart.antt =====
-- The constructor of `Connection`, which starts a session where the configuration asks for it.
use nawa.Common.{
  ℕ, ◌≡◌, refl, false, [], ◌∷◌, none, inl, inr, Bool-cases, if◌then◌else◌, codes, beq,
}
use nawa.Common.Table.{text_eq}
use nawa.Common.Result.{Result, ok}
use nawa.Config.{Config}
use nawa.Config
use nawa.Request.{make}
use nawa.Request.Init.{RequestInit}
use nawa.Connection.State.{Connection, new_cookie}
use nawa.Session.Store.{Store}
use nawa.Session.Invariant.{Valid}
use nawa.Session.Start.{World, established}
use nawa.Session.Cookies.{start_cookie}
use nawa.Session.Cookies.Laws.{start_cookie-Valid, start_cookie-SendsCookie, SendsCookie}

pub record ConnectionInit : Type 0 where
  pub request_init : RequestInit
  pub config : Config

-- The fields before the body of the constructor runs.
abbrev pub fresh_connection : ConnectionInit → Connection
fresh_connection init = record {
  body_string = [];
  response_status = 200;
  headers = (codes "content-type", codes "text/html; charset=utf-8" ∷ []) ∷ [];
  cookies = [];
  cookie_policy = new_cookie [];
  is_flushed = false;
  request = make init.request_init;
  session = record { current_data = none; current_id = []; cookie_name = [] };
  config = init.config;
  response_stream = [];
}

unfoldable pub connect : World → ℕ → ConnectionInit → Store → Store × Connection × Result (Unit {0})
connect w fuel init st =
    let c = fresh_connection init in
    if beq (Config.get init.config (codes "session") (codes "autostart")) (codes "on")
    then start_cookie w fuel (new_cookie []) st c
    else (st, c, ok tt)

is_fresh : (init : ConnectionInit) → established (fresh_connection init) ≡ false
unfolding established
is_fresh init = refl

-- A new connection keeps the session table well-formed. If the configuration switches autostart on
-- and the constructor returns, the response has a session cookie; if not, there is no session, the
-- table is as before, and no cookie is set.
pub connect-Valid :
    (w : World) (fuel : ℕ) (init : ConnectionInit) (st : Store)
    → Valid st
    → (connect w fuel init st).2 ≡ ok tt
    → let (st', c, r) = connect w fuel init st in
      Valid st'
      × (if beq (Config.get init.config (codes "session") (codes "autostart")) (codes "on")
          then SendsCookie (fresh_connection init) c
          else (c.session.current_data ≡ none) × (st' ≡ st) × (c.cookies ≡ []))
unfolding connect
connect-Valid w fuel init st v done =
    elim (Bool-cases
      (beq (Config.get init.config (codes "session") (codes "autostart")) (codes "on"))) [
        | inl on ↦
            let c = fresh_connection init in
            rw (on, connect)
              (
                start_cookie-Valid w fuel (new_cookie []) st c v,
                start_cookie-SendsCookie w fuel (new_cookie []) st c (is_fresh init)
                    (rw (on, connect) at done),
              )
        | inr off ↦ rw (off, connect) (v, (refl, refl, refl))
      ]
