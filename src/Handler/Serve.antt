-- ===== src/Handler/Serve.antt =====
-- What both handlers do with a request: construct the connection, handle the request, and flush.
pub mod Sessions
use nawa.Common.{◌≡◌, refl, Bool, true, false, List, [], ◌∷◌, ◌++◌, some}
use nawa.Common.Result.{Result, ok, err}
use nawa.Connection.State.{Connection}
use nawa.Connection.Response.{Flush, flush_response}
use nawa.Session.Store.{Store}
use nawa.Session.Autostart.{ConnectionInit, connect}
use nawa.Filter.Types.{AccessFilterList}
use nawa.Filter.Apply.{Outside, apply_filters}
use nawa.Handler.{
  Application, RequestHandler, call_application, handle_request, run_filters, unless_answered,
}

module _ (o : Outside) where
  open o use {world, fuel, gmtime}

  pub flush_after :
      Store × Connection × List Flush × Result (Unit {0}) → Store × List Flush × Result (Unit {0})
  flush_after (st, c, out, err e) = (st, out, err e)
  flush_after (st, c, out, ok _) =
      let (c', flush) = flush_response gmtime c in (st, out ++ flush ∷ [], ok tt)

  pub handle_connected :
      RequestHandler
      → Store × Connection × Result (Unit {0})
      → Store × List Flush × Result (Unit {0})
  handle_connected h (st, c, err e) = (st, [], err e)
  handle_connected h (st, c, ok _) = flush_after (handle_request o h st c)

  -- The flushes in their order, and whether an exception leaves the handler.
  unfoldable pub serve :
      RequestHandler → ConnectionInit → Store → Store × List Flush × Result (Unit {0})
  serve h init st = handle_connected h (connect world fuel init st)
