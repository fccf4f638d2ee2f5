-- ===== src/Handler/Serve/Sessions.antt =====
-- The sessions of a server that serves requests one after another.
use nawa.Common.{
  ◌≡◌, refl, sym, subst, Bool, true, false, List, [], Option, none, some, inl, inr, Bool-cases, beq,
  codes,
}
use nawa.Common.Table.{text_eq, Distinct, lookup}
use nawa.Common.Result.{Result, ok, err}
use nawa.Config
use nawa.Connection.State.{Connection, new_cookie}
use nawa.Connection.Response.{Flush}
use nawa.Session.Store.{Store, empty_store}
use nawa.Session.Invariant.{Valid}
use nawa.Session.Cookies.Laws.{start_cookie-Valid}
use nawa.Session.Autostart.{ConnectionInit, connect, fresh_connection}
use nawa.Filter.Types.{AccessFilterList}
use nawa.Filter.Apply.{Outside}
use nawa.Filter.Apply.Keeps.{apply_filters-Valid}
use nawa.Handler.{
  Application, RequestHandler, call_application, handle_request, run_filters, unless_answered,
  drop_handler,
}
use nawa.Handler.Serve.{flush_after, handle_connected, serve}

-- An application that keeps the session table well-formed, however it ends.
abbrev pub Careful : Application → Type 0
Careful application = (st : Store) (c : Connection) → Valid st → Valid (application st c).0

module _ (o : Outside) where
  open o use {world, fuel, gmtime}

  run_filters-Valid :
      (fs : Option AccessFilterList) (st : Store) (c : Connection)
      → Valid st
      → Valid (run_filters o fs st c).0
  unfolding run_filters
  run_filters-Valid none st c v = v
  run_filters-Valid (some fs) st c v = apply_filters-Valid o fs st c v

  call_application-Valid :
      (function : Option Application) (st : Store) (c : Connection)
      → ((application : Application) → function ≡ some application → Careful application)
      → Valid st
      → Valid (call_application function st c).0
  unfolding call_application
  call_application-Valid none st c careful v = v
  call_application-Valid (some application) st c careful v = careful application refl st c v

  unless_answered-Valid :
      (function : Option Application) (x : Store × Connection × Result Bool)
      → ((application : Application) → function ≡ some application → Careful application)
      → Valid x.0
      → Valid (unless_answered function x).0
  unfolding unless_answered
  unless_answered-Valid function (st, c, err e) careful v = v
  unless_answered-Valid function (st, c, ok true) careful v = v
  unless_answered-Valid function (st, c, ok false) careful v =
      call_application-Valid function st c careful v

  flush_after-store :
      (x : Store × Connection × List Flush × Result (Unit {0})) → (flush_after o x).0 ≡ x.0
  unfolding flush_after
  flush_after-store (st, c, out, err e) = refl
  flush_after-store (st, c, out, ok u) = refl

  handle_connected-Valid :
      (h : RequestHandler) (x : Store × Connection × Result (Unit {0}))
      → ((application : Application)
          → h.handle_request_function ≡ some application
          → Careful application)
      → Valid x.0
      → Valid (handle_connected o h x).0
  unfolding handle_connected handle_request
  handle_connected-Valid h (st, c, err e) careful v = v
  handle_connected-Valid h (st, c, ok u) careful v =
      subst Valid (sym (flush_after-store (handle_request o h st c))) (
        unless_answered-Valid h.handle_request_function (run_filters o h.access_filters st c)
          careful (run_filters-Valid h.access_filters st c v))

  connect-store-Valid :
      (init : ConnectionInit) (st : Store) → Valid st → Valid (connect world fuel init st).0
  unfolding connect
  connect-store-Valid init st v =
      elim (Bool-cases
        (beq (Config.get init.config (codes "session") (codes "autostart")) (codes "on"))) [
          | inl on ↦
              rw (on, connect)
                (start_cookie-Valid world fuel (new_cookie []) st (fresh_connection init) v)
          | inr off ↦ rw (off, connect) v
        ]

-- What happens to the sessions: a request is served, with a clock, random numbers, files and fuel of
-- its own, or the request handler goes.
pub data Step : Store → Store → Type 0 where
  request :
      (o : Outside) (h : RequestHandler) (init : ConnectionInit) (st : Store)
      → ((application : Application)
          → h.handle_request_function ≡ some application
          → Careful application)
      → Step st (serve o h init st).0
  gone : (st : Store) → Step st (drop_handler st)

pub data Reach : Store → Store → Type 0 where
  here : (st : Store) → Reach st st
  next : (st st' st'' : Store) → Reach st st' → Step st' st'' → Reach st st''

empty-Valid : (st : Store) → st.session_data ≡ [] → Valid st
unfolding Distinct lookup
empty-Valid st e = record {
  distinct = rw e tt;
  below = λ id p h. cc (rw e at h);
  single = λ id other p h k. cc (rw e at h);
}

Step-Valid : (st st' : Store) → Step st st' → Valid st → Valid st'
unfolding serve drop_handler
Step-Valid st st' (request o h init _ careful) v =
    handle_connected-Valid o h (connect o.world o.fuel init st) careful
      (connect-store-Valid o init st v)
Step-Valid st st' (gone _) v = empty-Valid (drop_handler st) refl

Reach-Valid : (st st' : Store) → Reach st st' → Valid st → Valid st'
Reach-Valid st _ (here _) v = v
Reach-Valid st st'' (next _ st' _ reached step) v =
    Step-Valid st' st'' step (Reach-Valid st st' reached v)

-- However many requests are served from the empty table on, each at a time, with random numbers, a
-- configuration, filters and data of its own, and however often the request handler is destroyed in
-- between, the session table is well-formed, if the applications keep it so.
pub served-Valid : (st : Store) → Reach empty_store st → Valid st
unfolding empty_store
served-Valid st reached = Reach-Valid empty_store st reached (empty-Valid empty_store refl)
