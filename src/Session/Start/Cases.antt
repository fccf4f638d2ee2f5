-- ===== src/Session/Start/Cases.antt =====
-- The ways in which `Session::start` ends, once for all of its properties.
use nawa.Common.{
  ℕ, zero, suc, ◌+◌, ◌≤◌, ◌<◌, ◌≡◌, ◌≢◌, refl, sym, subst, Bool, true, false, not, ◌&&◌, ◌||◌, List,
  Option, none, some, if◌then◌else◌, arith, inl, inr, ◌⊎◌, Bool-cases, Option-cases, Bytes, codes,
  is_empty, beq, beq_iff,
}
use nawa.Common.Table.{text_eq, lookup}
use nawa.Common.Result.{Result, ok, err, Error, Result-cases}
use nawa.Common.Number.{time_le, add_time}
use nawa.Connection.State.{Connection}
use nawa.Session.Store.{Store, set_expires, remove, create, collect_garbage}
use nawa.Session.Start.{
  World, remote_addr, session_config, established, setting, keepalive_of, generate_id, fresh_id,
  check_found, check_id, attach, run_gc, finish, start_new, start_checked, start_id,
}

abbrev pub Outcome : Type 0
Outcome = Store × Connection × Result Bytes

run_gc-ok :
    (w : World) (d : ℕ) (st st' : Store)
    → run_gc w d st ≡ ok st'
    → (st' ≡ st) ⊎ (st' ≡ collect_garbage w.now st)
unfolding run_gc
run_gc-ok w zero st st' h = cc
run_gc-ok w (suc d) st st' h = ground arith

-- `finish` keeps the connection, and the store or what garbage collection leaves of it.
pub finish_cases {ℓ} :
    (P : Outcome → Type ℓ) (w : World) (id : Bytes) (st : Store) (c : Connection)
    → ((e : Error) → P (st, c, err e))
    → P (st, c, ok id)
    → P (collect_garbage w.now st, c, ok id)
    → P (finish w id st c)
unfolding finish
finish_cases P w id st c failed kept collected =
    elim (Result-cases (setting (session_config c (codes "gc_divisor")) 100)) [
      | inr (e, h) ↦ rw (h, finish) (failed e)
      | inl (d, h) ↦
          rw (h, finish)
            (elim (Result-cases (run_gc w d st)) [
              | inr (e, k) ↦ rw k (failed e)
              | inl (st', k) ↦ rw k (elim (run_gc-ok w d st st' k) [
                | inl same ↦ rw same kept
                | inr swept ↦ rw swept collected
              ])
            ])
    ]

-- A new ID is the result of an attempt, and no session has it.
pub fresh_id-ok :
    (w : World) (addr : Bytes) (table : List (Bytes × ℕ)) (fuel i : ℕ) {id : Bytes}
    → fresh_id w addr table fuel i ≡ some id
    → (lookup id table ≡ none) × ((n : ℕ) × (id ≡ generate_id w addr n))
unfolding fresh_id
fresh_id-ok w addr table zero i h = cc
fresh_id-ok w addr table (suc fuel) i {id} h =
    elim (Option-cases (lookup (generate_id w addr i) table)) [
      | inl unused ↦
          let e : generate_id w addr i ≡ id = ground arith in
          (subst (λ x. lookup x table ≡ none) e unused, (i, sym e))
      | inr (p, used) ↦ fresh_id-ok w addr table fuel (suc i) (rw used at h)
    ]

-- Enough attempts: if one below the fuel gives an unused ID, a new ID is found.
pub fresh_id_total :
    (w : World) (addr : Bytes) (table : List (Bytes × ℕ)) (fuel i n : ℕ)
    → i ≤ n
    → n < i + fuel
    → lookup (generate_id w addr n) table ≡ none
    → (id : Bytes) × (fresh_id w addr table fuel i ≡ some id)
unfolding fresh_id
fresh_id_total w addr table zero i n h k free = absurd (omega arith)
fresh_id_total w addr table (suc fuel) i n h k free =
    elim (Option-cases (lookup (generate_id w addr i) table)) [
      | inl unused ↦ (generate_id w addr i, rw unused refl)
      | inr (p, used) ↦
          let later : i ≢ n =
            λ e. cc (subst (λ x. lookup (generate_id w addr x) table ≡ some p) e used) in
          let (id, found) =
            fresh_id_total w addr table fuel (suc i) n (omega arith) (omega arith) free in
          (id, rw used found)
    ]

module _ {ℓ} (P : Outcome → Type ℓ) (w : World) (fuel k : ℕ) (st : Store) (c : Connection) where
  pub start_new_cases :
      P (st, c, err Error.unfinished)
      → ((id : Bytes)
          → lookup id st.session_data ≡ none
          → P (finish w id (create id (remote_addr c) (add_time w.now k) st) (attach st.next id c)))
      → P (start_new w fuel k st c)
  unfolding start_new
  start_new_cases stuck created =
      elim (Option-cases (fresh_id w (remote_addr c) st.session_data fuel 0)) [
        | inl e ↦ rw (e, start_new) stuck
        | inr (id, e) ↦
            rw (e, start_new)
              (created id (fresh_id-ok w (remote_addr c) st.session_data fuel 0 e).0)
      ]

-- What the check of a given ID found. A session is resumed only if it has not expired, and if its
-- source address is the client's or the configuration does not ask for that.
abbrev pub Matches : Connection → Store → ℕ → Type 0
Matches c st p =
    ((beq (session_config c (codes "validate_ip")) (codes "strict") ≡ false)
      × (beq (session_config c (codes "validate_ip")) (codes "lax") ≡ false))
    ⊎ ((st.objects p).source_ip ≡ remote_addr c)

branch_cases {ℓ κ} :
    {A : Type κ} (P : A → Type ℓ) (old strict lax same : Bool) (kept removed resumed : A)
    → P kept
    → P removed
    → (old ≡ false → ((strict ≡ false) × (lax ≡ false)) ⊎ (same ≡ true) → P resumed)
    → P (
        if old
        then removed
        else if (strict || lax) && not same
        then (if strict then removed else kept)
        else resumed)
branch_cases P true strict lax same _ _ _ k r s = r
branch_cases P false true lax true _ _ _ k r s = s refl (inr refl)
branch_cases P false true lax false _ _ _ k r s = r
branch_cases P false false true true _ _ _ k r s = s refl (inr refl)
branch_cases P false false true false _ _ _ k r s = k
branch_cases P false false false same _ _ _ k r s = s refl (inl (refl, refl))

-- An ID is not resumed, with the table kept or the ID erased from it, or its session is resumed.
module _ {ℓ} (P : Store × Option ℕ → Type ℓ) (c : Connection) (now k : ℕ) (id : Bytes) (st : Store)
    (kept : P (st, none)) (removed : P (remove id st, none)) where
  check_found_cases :
      (p : ℕ)
      → (time_le (st.objects p).expires now ≡ false
          → Matches c st p
          → P (set_expires p (add_time now k) st, some p))
      → P (check_found c now k id p st)
  unfolding check_found
  check_found_cases p resumed =
      branch_cases P (time_le (st.objects p).expires now)
        (beq (session_config c (codes "validate_ip")) (codes "strict"))
        (beq (session_config c (codes "validate_ip")) (codes "lax"))
        (beq (st.objects p).source_ip (remote_addr c)) (st, none) (remove id st, none)
        (set_expires p (add_time now k) st, some p) kept removed
        λ live e.
          resumed live (elim e [ inl off ↦ inl off | inr same ↦ inr ((beq_iff _ _).0 same) ])

  pub check_id_cases :
      ((p : ℕ)
        → lookup id st.session_data ≡ some p
        → time_le (st.objects p).expires now ≡ false
        → Matches c st p
        → P (set_expires p (add_time now k) st, some p))
      → P (check_id c now k id st)
  unfolding check_id
  check_id_cases resumed = elim (Bool-cases (is_empty id)) [
    | inl e ↦ rw (e, check_id) kept
    | inr e ↦ elim (Option-cases (lookup id st.session_data)) [
      | inl h ↦ rw (e, h, check_id) kept
      | inr (p, h) ↦ rw (e, h, check_id) (check_found_cases p (resumed p h))
    ]
  ]

-- `start` on a connection without a session ends with an exception before anything changed, with a
-- resumed session, or with a new one.
module _ {ℓ} (P : Outcome → Type ℓ) (w : World) (fuel : ℕ) (id : Bytes) (keepalive : Option ℕ)
    (st : Store) (c : Connection) where
  pub start_id_cases :
      established c ≡ false
      → ((e : Error) → P (st, c, err e))
      → ((k p : ℕ)
          → keepalive_of c keepalive ≡ ok k
          → lookup id st.session_data ≡ some p
          → time_le (st.objects p).expires w.now ≡ false
          → Matches c st p
          → P (finish w id (set_expires p (add_time w.now k) st) (attach p id c)))
      → ((k : ℕ) (st' : Store)
          → keepalive_of c keepalive ≡ ok k
          → (st' ≡ st) ⊎ (st' ≡ remove id st)
          → P (start_new w fuel k st' c))
      → P (start_id w fuel id keepalive st c)
  unfolding start_id start_checked
  start_id_cases fresh failed resumed created = elim (Result-cases (keepalive_of c keepalive)) [
    | inr (e, h) ↦ rw (fresh, h, start_id) (failed e)
    | inl (k, h) ↦
        rw (fresh, h, start_id)
          (check_id_cases (λ r. P (start_checked w fuel k id r c)) c w.now k id st
            (created k st h (inl refl)) (created k (remove id st) h (inr refl))
            (λ p. resumed k p h))
  ]
