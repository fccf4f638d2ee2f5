-- ===== src/Session/Values.antt =====
-- The values of a session: `isSet`, `operator[]`, `set`, `unset`, and `invalidate`.
pub mod Laws
use nawa.Common.{ℕ, Bool, true, false, List, Option, none, some, Bytes}
use nawa.Common.Table.{text_eq, lookup, assign, erase}
use nawa.Common.Result.{Result, ok, err, exception}
use nawa.Connection.State.{Connection, Session}
use nawa.Connection.Response.{unset_cookie}
use nawa.Session.Store.{Store, SessionData, AnyValue, empty, update, remove}
use nawa.Session.Start.{is_some}

-- The values that the connection's session holds, if there is one.
abbrev pub values_of : Store → Option ℕ → Option (List (Bytes × AnyValue))
values_of st none = none
values_of st (some p) = some ((st.objects p).data_map)

lookup_in : Bytes → Option (List (Bytes × AnyValue)) → Option AnyValue
lookup_in key none = none
lookup_in key (some m) = lookup key m

unfoldable pub is_set : Store → Connection → Bytes → Bool
unfolding lookup_in
is_set st c key = is_some (lookup_in key (values_of st c.session.current_data))

or_any : Option AnyValue → AnyValue
or_any none = empty
or_any (some v) = v

-- `session[key]`.
unfoldable pub get : Store → Connection → Bytes → AnyValue
unfolding lookup_in or_any
get st c key = or_any (lookup_in key (values_of st c.session.current_data))

-- A change of the values at the pointer of the session; it throws where no session is established.
change :
    (List (Bytes × AnyValue) → List (Bytes × AnyValue))
    → Store
    → Option ℕ
    → Store × Result (Unit {0})
change f st none = (st, err (exception 1))
change f st (some p) =
    let d = st.objects p in
    (record st { objects = update st.objects p (record d { data_map = f d.data_map }) }, ok tt)

unfoldable pub set : Bytes → AnyValue → Store → Connection → Store × Result (Unit {0})
unfolding change
set key value st c = change (assign key value) st c.session.current_data

unfoldable pub unset : Bytes → Store → Connection → Store × Result (Unit {0})
unfolding change
unset key st c = change (erase key) st c.session.current_data

invalidate_at : Option ℕ → Store → Connection → Store × Connection
invalidate_at none st c = (st, c)
invalidate_at (some p) st c =
    let c' = record c { session = record (c.session) { current_data = none } } in
    (remove c.session.current_id st, unset_cookie c.session.cookie_name c')

unfoldable pub invalidate : Store → Connection → Store × Connection
unfolding invalidate_at
invalidate st c = invalidate_at c.session.current_data st c
