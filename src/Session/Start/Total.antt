-- ===== src/Session/Start/Total.antt =====
-- `Session::start` ends with a session ID, given enough attempts at a new one.
use nawa.Common.{
  ℕ, suc, ◌<◌, ◌≡◌, refl, Option, none, inl, inr, arith, Bool-cases, Option-cases, Bytes, codes,
}
use nawa.Common.Table.{text_eq, lookup}
use nawa.Common.Result.{ok}
use nawa.Connection.State.{Connection}
use nawa.Session.Store.{Store, remove}
use nawa.Session.Invariant.{erase-Fewer}
use nawa.Session.Start.{
  World, remote_addr, session_config, established, setting, keepalive_of, generate_id, run_gc,
  start_checked, finish, start_new, start_id, attach,
}
use nawa.Session.Start.Cases.{Outcome, fresh_id_total, check_id_cases}

abbrev pub Returns : Outcome → Type 0
Returns r = (id : Bytes) × (r.2 ≡ ok id)

-- A divisor other than 0 is configured, or none and the default holds.
abbrev pub HasDivisor : Connection → Type 0
HasDivisor c = (d : ℕ) × (setting (session_config c (codes "gc_divisor")) 100 ≡ ok (suc d))

finish-Returns :
    (w : World) (id : Bytes) (st : Store) (c : Connection)
    → HasDivisor c
    → Returns (finish w id st c)
unfolding finish run_gc
finish-Returns w id st c (d, h) = (id, rw (h, finish) refl)

start_new-Returns :
    (w : World) (fuel k n : ℕ) (st : Store) (c : Connection)
    → HasDivisor c
    → n < fuel
    → lookup (generate_id w (remote_addr c) n) st.session_data ≡ none
    → Returns (start_new w fuel k st c)
unfolding start_new
start_new-Returns w fuel k n st c d h free =
    let (id, found) =
      fresh_id_total w (remote_addr c) st.session_data fuel 0 n (omega arith) (omega arith) free in
    rw (found, start_new) (finish-Returns w id _ (attach st.next id c) d)

still_free :
    (id other : Bytes) (st : Store)
    → lookup id st.session_data ≡ none
    → lookup id (remove other st).session_data ≡ none
unfolding remove
still_free id other st free = elim (Option-cases (lookup id (remove other st).session_data)) [
  | inl e ↦ e
  | inr (p, e) ↦ cc (erase-Fewer other st.session_data id p e)
]

-- If the configured numbers can be read, the divisor is not 0, and one of the attempts that the fuel
-- allows gives an ID that is not in use, `start` returns a session ID.
pub start_id_total :
    (w : World) (fuel n k : ℕ) (id : Bytes) (keepalive : Option ℕ) (st : Store) (c : Connection)
    → keepalive_of c keepalive ≡ ok k
    → HasDivisor c
    → n < fuel
    → lookup (generate_id w (remote_addr c) n) st.session_data ≡ none
    → Returns (start_id w fuel id keepalive st c)
unfolding start_id start_checked
start_id_total w fuel n k id keepalive st c h d less free = elim (Bool-cases (established c)) [
  | inl old ↦ rw old (c.session.current_id, refl)
  | inr fresh ↦
      rw (fresh, h)
        (check_id_cases (λ r. Returns (start_checked w fuel k id r c)) c w.now k id st
          (start_new-Returns w fuel k n st c d less free)
          (start_new-Returns w fuel k n (remove id st) c d less (still_free _ id st free))
          (λ p _ _ _. finish-Returns w id _ (attach p id c) d))
]
