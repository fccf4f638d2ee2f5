-- ===== src/Session/Start/Safety.antt =====
-- Which session `Session::start` gives a connection that has none yet.
use nawa.Common.{
  ℕ, ◌≡◌, refl, sym, ap, subst, ◌∙◌, false, [], Option, none, some, if◌then◌else◌, ==_refl, arith,
  inl, inr, ◌⊎◌, Bytes, codes, beq, beq_refl,
}
use nawa.Common.Table.{text_eq, lookup, lookup-assign, lookup-erase_if, unless}
use nawa.Common.Result.{ok}
use nawa.Common.Number.{time_le, time_lt, add_time}
use nawa.Connection.State.{Connection}
use nawa.Session.Store.{
  Store, SessionData, set_expires, remove, create, collect_garbage, is_expired,
}
use nawa.Session.Invariant.{Valid, remove-Valid, create-Valid, set_expires-Valid}
use nawa.Session.Start.{
  World, remote_addr, session_config, established, keepalive_of, finish, start_new, start_id,
  attach,
}
use nawa.Session.Start.Cases.{Outcome, Matches, finish_cases, start_new_cases, start_id_cases}

-- Where a session comes from: it is the unexpired session of the given ID, with its values, or a new
-- one of the client's address, at a pointer that was not in use, with no values.
abbrev pub Origin : World → Bytes → Store → Connection → (ℕ → SessionData) → ℕ → Bytes → Type 0
Origin w id st c objects p result =
    ((lookup id st.session_data ≡ some p)
      × (result ≡ id)
      × (time_le (st.objects p).expires w.now ≡ false)
      × Matches c st p
      × ((objects p).data_map ≡ (st.objects p).data_map)
      × ((objects p).source_ip ≡ (st.objects p).source_ip))
    ⊎ ((p ≡ st.next) × ((objects p).data_map ≡ []) × ((objects p).source_ip ≡ remote_addr c))

-- The session that a connection was given: its pointer is set, its expiry is `k` seconds from now,
-- and the ID that is returned leads to it, unless it expires before the present second.
pub record Started (w : World) (id : Bytes) (k : ℕ) (st : Store) (c : Connection) (r : Outcome)
    (result : Bytes) : Type 0 where
  pub pointer : ℕ
  pub attached : r.1.session.current_data ≡ some pointer
  pub named : r.1.session.current_id ≡ result
  pub expiry : (r.0.objects pointer).expires ≡ add_time w.now k
  pub origin : Origin w id st c r.0.objects pointer result
  pub entered :
      time_lt (add_time w.now k) w.now ≡ false → lookup result r.0.session_data ≡ some pointer

abbrev Gives : World → Bytes → ℕ → Store → Connection → Outcome → Type 0
Gives w id k st c r = (result : Bytes) → r.2 ≡ ok result → Started w id k st c r result

swept_objects : (now : ℕ) (st : Store) → (collect_garbage now st).objects ≡ st.objects
unfolding collect_garbage
swept_objects now st = refl

-- Garbage collection keeps the entry of a session that has not expired.
swept_entry :
    (now : ℕ) (id : Bytes) (p : ℕ) (st : Store)
    → Valid st
    → lookup id st.session_data ≡ some p
    → time_lt (st.objects p).expires now ≡ false
    → lookup id (collect_garbage now st).session_data ≡ some p
unfolding collect_garbage
swept_entry now id p st v found live =
    lookup-erase_if (is_expired st.objects now) id st.session_data v.distinct
    ∙ ap (unless (is_expired st.objects now) id) found
    ∙ ap (λ b. if b then none else some p) live

module _ (w : World) (id : Bytes) (k p : ℕ) (st st' : Store) (c : Connection) (result : Bytes)
    (v : Valid st') (found : lookup result st'.session_data ≡ some p)
    (expiry : (st'.objects p).expires ≡ add_time w.now k)
    (origin : Origin w id st c st'.objects p result) where
  given :
      (new : Store)
      → new.objects ≡ st'.objects
      → (time_lt (add_time w.now k) w.now ≡ false → lookup result new.session_data ≡ some p)
      → Started w id k st c (new, attach p result c, ok result) result
  given new e entered = record {
    pointer = p;
    attached = refl;
    named = refl;
    expiry = subst (λ o. (o p).expires ≡ add_time w.now k) (sym e) expiry;
    origin = subst (λ o. Origin w id st c o p result) (sym e) origin;
    entered = entered;
  }

  same_result :
      (new : Store)
      → Started w id k st c (new, attach p result c, ok result) result
      → Gives w id k st c (new, attach p result c, ok result)
  same_result new s r h =
      let e : result ≡ r = ground arith in
      subst (λ x. Started w id k st c (new, attach p result c, ok result) x) e s

  finish-Gives : Gives w id k st c (finish w result st' (attach p result c))
  finish-Gives =
      let swept = collect_garbage w.now st' in
      finish_cases (Gives w id k st c) w result st' (attach p result c) (λ e r h. cc)
        (same_result st' (given st' refl (λ _. found)))
        (same_result swept (
          given swept (swept_objects w.now st') (λ live.
            swept_entry w.now result p st' v found (ap (λ t. time_lt t w.now) expiry ∙ live))))

extended :
    (p t : ℕ) (st : Store)
    → let new = set_expires p t st in
      ((new.objects p).expires ≡ t)
      × ((new.objects p).data_map ≡ (st.objects p).data_map)
      × ((new.objects p).source_ip ≡ (st.objects p).source_ip)
      × (new.session_data ≡ st.session_data)
unfolding set_expires
extended p t st = rw (==_refl p) (refl, refl, refl, refl)

created :
    (id ip : Bytes) (t : ℕ) (st : Store)
    → let new = create id ip t st in
      ((new.objects st.next).expires ≡ t)
      × ((new.objects st.next).data_map ≡ [])
      × ((new.objects st.next).source_ip ≡ ip)
      × (lookup id new.session_data ≡ some st.next)
unfolding create
created id ip t st =
    rw (==_refl st.next)
      (refl, refl, refl, ground (arith, lookup-assign id id st.next st.session_data, beq_refl id))

resumed-Gives :
    (w : World) (id : Bytes) (k p : ℕ) (st : Store) (c : Connection)
    → Valid st
    → lookup id st.session_data ≡ some p
    → time_le (st.objects p).expires w.now ≡ false
    → Matches c st p
    → Gives w id k st c (finish w id (set_expires p (add_time w.now k) st) (attach p id c))
resumed-Gives w id k p st c v found live m =
    let (expiry, values, ip, table) = extended p (add_time w.now k) st in
    finish-Gives w id k p st (set_expires p (add_time w.now k) st) c id (set_expires-Valid p _ v)
      (ap (lookup id) table ∙ found) expiry (inl (found, refl, live, m, values, ip))

new-Gives :
    (w : World) (fuel : ℕ) (id : Bytes) (k : ℕ) (st st' : Store) (c : Connection)
    → Valid st'
    → st'.next ≡ st.next
    → Gives w id k st c (start_new w fuel k st' c)
new-Gives w fuel id k st st' c v e =
    start_new_cases (Gives w id k st c) w fuel k st' c (λ r h. cc)
      λ result unused.
        let t = add_time w.now k in
        let (expiry, values, ip, entry) = created result (remote_addr c) t st' in
        finish-Gives w id k st'.next st (create result (remote_addr c) t st') c result
          (create-Valid result (remote_addr c) t unused v) entry expiry (inr (e, values, ip))

removed_next : (id : Bytes) (st : Store) → (remove id st).next ≡ st.next
unfolding remove
removed_next id st = refl

kept_store :
    (id : Bytes) (st st' : Store)
    → Valid st
    → (st' ≡ st) ⊎ (st' ≡ remove id st)
    → Valid st' × (st'.next ≡ st.next)
kept_store id st st' v (inl e) = (subst Valid (sym e) v, ap (λ s. s.next) e)
kept_store id st st' v (inr e) =
    (subst Valid (sym e) (remove-Valid id v), ap (λ s. s.next) e ∙ removed_next id st)

-- On a well-formed store and a connection that has no session: if `start` returns, then the
-- connection holds the session whose ID is returned, with a new expiry; the session is resumed only
-- if it has not expired and its address is the client's or is not asked for, and else it is new, with
-- a pointer and values of its own; and the ID leads to it in the table, unless it is already expired.
pub start_id-Started :
    (w : World) (fuel : ℕ) (id : Bytes) (keepalive : Option ℕ) (st : Store) (c : Connection)
    → Valid st
    → established c ≡ false
    → (result : Bytes) → (start_id w fuel id keepalive st c).2 ≡ ok result
    → (k : ℕ) × (keepalive_of c keepalive ≡ ok k)
      × Started w id k st c (start_id w fuel id keepalive st c) result
start_id-Started w fuel id keepalive st c v fresh =
    start_id_cases
      (λ r.
        (result : Bytes)
        → r.2 ≡ ok result
        → (k : ℕ) × (keepalive_of c keepalive ≡ ok k) × Started w id k st c r result)
      w fuel id keepalive st c fresh (λ e r h. cc)
      (λ k p h found live m result e. (k, h, resumed-Gives w id k p st c v found live m result e))
      (λ k st' h same result e.
        let (v', e') = kept_store id st st' v same in
        (k, h, new-Gives w fuel id k st st' c v' e' result e))

validated :
    (c : Connection) (st : Store) (p : ℕ)
    → (session_config c (codes "validate_ip") ≡ codes "strict")
      ⊎ (session_config c (codes "validate_ip") ≡ codes "lax")
    → Matches c st p
    → (st.objects p).source_ip ≡ remote_addr c
validated c st p asked (inr same) = same
validated c st p (inl strict) (inl (no_strict, _)) =
    cc (sym (ap (λ v. beq v (codes "strict")) strict ∙ beq_refl (codes "strict")) ∙ no_strict)
validated c st p (inr lax) (inl (_, no_lax)) =
    cc (sym (ap (λ v. beq v (codes "lax")) lax ∙ beq_refl (codes "lax")) ∙ no_lax)

-- On a well-formed store and a connection without a session, and where the configuration asks for
-- address validation, strict or lax: if `start` returns, then the connection has a session, and it
-- was created for the address of that connection.
pub start_id-source_ip :
    (w : World) (fuel : ℕ) (id : Bytes) (keepalive : Option ℕ) (st : Store) (c : Connection)
    → Valid st
    → established c ≡ false
    → (session_config c (codes "validate_ip") ≡ codes "strict")
      ⊎ (session_config c (codes "validate_ip") ≡ codes "lax")
    → (result : Bytes) → (start_id w fuel id keepalive st c).2 ≡ ok result
    → let r = start_id w fuel id keepalive st c in
      (p : ℕ) × (r.1.session.current_data ≡ some p) × ((r.0.objects p).source_ip ≡ remote_addr c)
start_id-source_ip w fuel id keepalive st c v fresh asked result h =
    let (k, _, s) = start_id-Started w fuel id keepalive st c v fresh result h in
    (
      s.pointer,
      s.attached,
      elim s.origin [
        | inl (found, same, live, m, values, ip) ↦ ip ∙ validated c st s.pointer asked m
        | inr (new, values, ip) ↦ ip
      ],
    )
