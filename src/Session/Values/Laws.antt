-- ===== src/Session/Values/Laws.antt =====
-- What connections see of session values, of invalidated sessions and of garbage collection.
use nawa.Common.{
  ℕ, ◌≡◌, refl, ap, ◌∙◌, Bool, true, false, ◌&&◌, Option, none, some, if◌then◌else◌, ◌==◌, ==_iff,
  inl, inr, Bool-cases, Option-cases, Bytes, beq, beq_refl,
}
use nawa.Common.Table.{text_eq, lookup, lookup-assign, lookup-erase, lookup-erase_if, unless}
use nawa.Common.Result.{ok, err, exception}
use nawa.Common.Number.{time_lt}
use nawa.Connection.State.{Connection}
use nawa.Connection.Response.{unset_cookie}
use nawa.Session.Store.{Store, AnyValue, empty, remove, collect_garbage, is_expired}
use nawa.Session.Invariant.{Valid}
use nawa.Session.Start.{established}
use nawa.Session.Values.{
  lookup_in, or_any, change, is_set, get, set, unset, invalidate_at, invalidate,
}

or_any-if :
    (b : Bool) (value : AnyValue) (o : Option AnyValue)
    → or_any (if b then some value else o) ≡ (if b then value else or_any o)
unfolding or_any
or_any-if true value o = refl
or_any-if false value o = refl

or_any-none :
    (b : Bool) (o : Option AnyValue)
    → or_any (if b then none else o) ≡ (if b then empty else or_any o)
unfolding or_any
or_any-none true o = refl
or_any-none false o = refl

-- A value that one connection sets is read by every connection with the same session, and no other
-- key and no other session changes.
pub get-set :
    (key other : Bytes) (value : AnyValue) (st : Store) (c d : Connection) (p q : ℕ)
    → c.session.current_data ≡ some p
    → d.session.current_data ≡ some q
    → let (st', r) = set key value st c in
      (r ≡ ok tt)
      × (get st' d other ≡ (if (q == p) && beq key other then value else get st d other))
unfolding set get lookup_in change
get-set key other value st c d p q hc hd = elim (Bool-cases (q == p)) [
  | inl same ↦
      let e = (==_iff q p).0 same in
      rw (hc, hd, same)
        (
          refl,
          rw (lookup-assign key other value ((st.objects p).data_map), ← e)
              (or_any-if (beq key other) value (lookup other ((st.objects q).data_map))),
        )
  | inr differs ↦ rw (hc, hd, differs) (refl, refl)
]

-- After `unset` the key reads as empty in every connection with the same session, and no other key
-- and no other session changes.
pub get-unset :
    (key other : Bytes) (st : Store) (c d : Connection) (p q : ℕ)
    → c.session.current_data ≡ some p
    → d.session.current_data ≡ some q
    → let (st', r) = unset key st c in
      (r ≡ ok tt)
      × (get st' d other ≡ (if (q == p) && beq key other then empty else get st d other))
unfolding unset get lookup_in change
get-unset key other st c d p q hc hd = elim (Bool-cases (q == p)) [
  | inl same ↦
      let e = (==_iff q p).0 same in
      rw (hc, hd, same)
        (
          refl,
          rw (lookup-erase key other ((st.objects p).data_map), ← e)
              (or_any-none (beq key other) (lookup other ((st.objects q).data_map))),
        )
  | inr differs ↦ rw (hc, hd, differs) (refl, refl)
]

-- Without a session `set` and `unset` throw and change nothing, no key is set, and all read as empty.
no_session :
    (key : Bytes) (value : AnyValue) (st : Store) (c : Connection)
    → c.session.current_data ≡ none
    → (set key value st c ≡ (st, err (exception 1)))
      × (unset key st c ≡ (st, err (exception 1)))
      × (is_set st c key ≡ false)
      × (get st c key ≡ empty)
      × (invalidate st c ≡ (st, c))
unfolding set unset is_set get invalidate
no_session key value st c h = rw h (refl, refl, refl, refl, refl)

-- Invalidating a session ends it for the connection and erases its ID, so that no later request can
-- resume it; every other ID leads where it did.
pub invalidate_lem :
    (other : Bytes) (st : Store) (c : Connection) (p : ℕ)
    → c.session.current_data ≡ some p
    → let (st', c') = invalidate st c in
      (established c' ≡ false)
      × (lookup other st'.session_data
          ≡ (if beq c.session.current_id other then none else lookup other st.session_data))
      × (lookup c.session.cookie_name c'.cookies ≡ none)
unfolding invalidate invalidate_at established remove unset_cookie
invalidate_lem other st c p h = rw h (
  refl,
  lookup-erase c.session.current_id other st.session_data,
  lookup-erase c.session.cookie_name c.session.cookie_name c.cookies
      ∙ ap (λ b. if b then none else lookup c.session.cookie_name c.cookies)
          (beq_refl c.session.cookie_name),
)

unless_lem :
    (p : Bytes → ℕ → Bool) (id : Bytes) (o : Option ℕ)
    → unless p id o ≡ elim o [ none ↦ none | some v ↦ if p id v then none else some v ]
unless_lem p id none = refl
unless_lem p id (some v) = refl

-- Garbage collection erases the sessions whose expiry is in the past and no others, and keeps all data.
pub lookup-collect_garbage :
    (now : ℕ) (id : Bytes) (st : Store)
    → Valid st
    → (lookup id (collect_garbage now st).session_data ≡ elim (lookup id st.session_data) [
      | none ↦ none
      | some p ↦ if time_lt (st.objects p).expires now then none else some p
    ])
      × ((collect_garbage now st).objects ≡ st.objects)
unfolding collect_garbage
lookup-collect_garbage now id st v = (
  lookup-erase_if (is_expired st.objects now) id st.session_data v.distinct
      ∙ unless_lem (is_expired st.objects now) id (lookup id st.session_data),
  refl,
)

pub set-Valid :
    (key : Bytes) (value : AnyValue) (st : Store) (c : Connection)
    → Valid st
    → Valid (set key value st c).0
unfolding set change
set-Valid key value st c v = elim (Option-cases c.session.current_data) [
  | inl h ↦ rw h v
  | inr (p, h) ↦ rw h (record { distinct = v.distinct; below = v.below; single = v.single })
]
