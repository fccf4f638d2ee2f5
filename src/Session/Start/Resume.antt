-- ===== src/Session/Start/Resume.antt =====
-- A live session is found again by its ID.
use nawa.Common.{
  ℕ, ◌≡◌, ◌≢◌, ◌⊎◌, refl, ◌∷◌, ==_refl, Bool, true, false, not, ◌&&◌, ◌||◌, [], Option, some, inl,
  inr, if◌then◌else◌, Bytes, codes, is_empty, beq, beq_iff,
}
use nawa.Common.Table.{text_eq, lookup}
use nawa.Common.Result.{ok}
use nawa.Common.Number.{time_le, add_time}
use nawa.Connection.State.{Connection}
use nawa.Session.Store.{Store, set_expires, collect_garbage}
use nawa.Session.Start.{
  World, remote_addr, session_config, established, keepalive_of, check_found, check_id, attach,
  start_checked, start_id,
}
use nawa.Session.Start.Cases.{Matches, finish_cases}

allowed {ℓ} :
    {A : Type ℓ} (strict lax same : Bool) (refused resumed : A)
    → ((strict ≡ false) × (lax ≡ false)) ⊎ (same ≡ true)
    → (if (strict || lax) && not same then refused else resumed) ≡ resumed
allowed true lax true refused resumed h = refl
allowed true lax false refused resumed h = elim h [ inl p ↦ cc (p.0) | inr p ↦ cc p ]
allowed false true true refused resumed h = refl
allowed false true false refused resumed h = elim h [ inl p ↦ cc (p.1) | inr p ↦ cc p ]
allowed false false same refused resumed h = refl

same_address :
    (c : Connection) (st : Store) (p : ℕ)
    → Matches c st p
    → ((beq (session_config c (codes "validate_ip")) (codes "strict") ≡ false)
        × (beq (session_config c (codes "validate_ip")) (codes "lax") ≡ false))
      ⊎ (beq (st.objects p).source_ip (remote_addr c) ≡ true)
same_address c st p (inl off) = inl off
same_address c st p (inr same) = inr ((beq_iff (st.objects p).source_ip (remote_addr c)).1 same)

check_found_resumed :
    (c : Connection) (now k : ℕ) (id : Bytes) (p : ℕ) (st : Store)
    → time_le (st.objects p).expires now ≡ false
    → Matches c st p
    → check_found c now k id p st ≡ (set_expires p (add_time now k) st, some p)
unfolding check_found
check_found_resumed c now k id p st live m = rw live (allowed _ _ _ _ _ (same_address c st p m))

filled : (id : Bytes) → id ≢ [] → is_empty id ≡ false
filled [] h = absurd (h refl)
filled (x ∷ id) h = refl

check_id_resumed :
    (c : Connection) (now k : ℕ) (id : Bytes) (p : ℕ) (st : Store)
    → id ≢ []
    → lookup id st.session_data ≡ some p
    → time_le (st.objects p).expires now ≡ false
    → Matches c st p
    → check_id c now k id st ≡ (set_expires p (add_time now k) st, some p)
unfolding check_id
check_id_resumed c now k id p st n found live m =
    rw (filled id n, found, check_id) (check_found_resumed c now k id p st live m)

new_expiry :
    (p t now : ℕ) (st : Store)
    → (((set_expires p t st).objects p).expires ≡ t)
      × (((collect_garbage now (set_expires p t st)).objects p).expires ≡ t)
unfolding set_expires collect_garbage
new_expiry p t now st = rw (==_refl p) (refl, refl)

-- If the table has an ID whose session has not expired, and whose address is the client's or is not
-- asked for, then `start` with this ID on a connection without a session attaches this session, under
-- this ID, and renews its expiry, if the keepalive can be read, whether or not it throws later.
pub start_id_resumed :
    (w : World) (fuel k p : ℕ) (id : Bytes) (keepalive : Option ℕ) (st : Store) (c : Connection)
    → established c ≡ false
    → keepalive_of c keepalive ≡ ok k
    → id ≢ []
    → lookup id st.session_data ≡ some p
    → time_le (st.objects p).expires w.now ≡ false
    → Matches c st p
    → let r = start_id w fuel id keepalive st c in
      (r.1.session.current_data ≡ some p)
      × (r.1.session.current_id ≡ id)
      × ((r.0.objects p).expires ≡ add_time w.now k)
unfolding start_id start_checked
start_id_resumed w fuel k p id keepalive st c fresh h n found live m =
    let (kept, swept) = new_expiry p (add_time w.now k) w.now st in
    rw (fresh, h, start_id, check_id_resumed c w.now k id p st n found live m)
      (finish_cases
        (λ r.
          (r.1.session.current_data ≡ some p)
          × (r.1.session.current_id ≡ id)
          × ((r.0.objects p).expires ≡ add_time w.now k))
        w id (set_expires p (add_time w.now k) st) (attach p id c) (λ e. (refl, refl, kept))
        (refl, refl, kept) (refl, refl, swept))
