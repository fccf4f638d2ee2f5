-- ===== src/Session/Start/Keeps.antt =====
-- `Session::start` keeps the session table well-formed.
use nawa.Common.{ℕ, sym, subst, Option, inl, inr, Bool-cases, Bytes}
use nawa.Common.Table.{text_eq}
use nawa.Connection.State.{Connection}
use nawa.Session.Store.{Store}
use nawa.Session.Invariant.{
  Valid, remove-Valid, collect_garbage-Valid, set_expires-Valid, create-Valid,
}
use nawa.Session.Start.{World, established, finish, start_new, start_id}
use nawa.Session.Start.Cases.{Outcome, finish_cases, start_new_cases, start_id_cases}

abbrev ValidAfter : Outcome → Type 0
ValidAfter r = Valid r.0

finish-Valid :
    (w : World) (id : Bytes) (st : Store) (c : Connection)
    → Valid st
    → ValidAfter (finish w id st c)
finish-Valid w id st c v =
    finish_cases ValidAfter w id st c (λ e. v) v (collect_garbage-Valid w.now v)

start_new-Valid :
    (w : World) (fuel k : ℕ) (st : Store) (c : Connection)
    → Valid st
    → ValidAfter (start_new w fuel k st c)
start_new-Valid w fuel k st c v =
    start_new_cases ValidAfter w fuel k st c v
      λ id unused. finish-Valid w id _ _ (create-Valid id _ _ unused v)

-- Whatever a call of `start` ends with, the table keeps distinct IDs, valid pointers, and a session
-- of its own for each ID.
pub start_id-Valid :
    (w : World) (fuel : ℕ) (id : Bytes) (keepalive : Option ℕ) (st : Store) (c : Connection)
    → Valid st
    → Valid (start_id w fuel id keepalive st c).0
unfolding start_id
start_id-Valid w fuel id keepalive st c v = elim (Bool-cases (established c)) [
  | inl old ↦ rw (old, start_id) v
  | inr fresh ↦
      start_id_cases ValidAfter w fuel id keepalive st c fresh (λ e. v)
        (λ k p _ _ _ _. finish-Valid w id _ _ (set_expires-Valid p _ v))
        (λ k st' _ same. start_new-Valid w fuel k st' c (elim same [
          | inl e ↦ subst Valid (sym e) v
          | inr e ↦ subst Valid (sym e) (remove-Valid id v)
        ]))
]
