-- ===== src/Tests/Sessions.antt =====
-- Runs of the session theorems.
use nawa.Common.{
  ℕ, ◌≡◌, refl, sym, ◌∙◌, false, none, some, arith, inl, inr, if◌then◌else◌, ◌==◌, ◌&&◌, Bool-cases,
  Bytes, codes, beq, beq_iff,
}
use nawa.Common.Table.{text_eq, pair_test, lookup, Distinct}
use nawa.Util.Strings.{hex_dump}
use nawa.Common.Result.{ok}
use nawa.Common.Number.{time_lt}
use nawa.Config
use nawa.Request.Env
use nawa.Session.Store.{text, collect_garbage}
use nawa.Session.Invariant.{Valid}
use nawa.Session.Start.{
  start_id, start_code, established, remote_addr, generate_id, keepalive_of, session_config,
  setting,
}
use nawa.Session.Start.Keeps.{start_id-Valid}
use nawa.Session.Start.Safety.{start_id-Started, start_id-source_ip, Started}
use nawa.Session.Start.Total.{start_id_total, HasDivisor, Returns}
use nawa.Session.Start.Resume.{start_id_resumed}
use nawa.Common.Number.{add_time}
use nawa.Session.Values.{get, set, invalidate}
use nawa.Session.Values.Laws.{get-set, invalidate_lem, lookup-collect_garbage}
use nawa.Tests.Sample.{connection, resumed, world, store}

only_id : (j : Bytes) (p : ℕ) → lookup j store.session_data ≡ some p → (codes "id" ≡ j) × (p ≡ 0)
unfolding lookup
only_id j p h = elim (Bool-cases (beq (codes "id") j)) [
  | inl same ↦
      let e : ◌≡◌ {A = _} (some 0) (some p) = rw same at h in ((beq_iff (codes "id") j).0 same, cc)
  | inr other ↦ cc (rw other at h)
]

pub store-Valid : Valid store
unfolding Distinct lookup
store-Valid = record {
  distinct = (refl, tt);
  below = λ j p h. (let (_, e) = only_id j p h in omega (arith, e));
  single = λ i j p h k. sym (only_id i p h).0 ∙ (only_id j p k).0;
}

pub is_new : established connection ≡ false
unfolding established
is_new = refl

is_strict : session_config connection (codes "validate_ip") ≡ codes "strict"
unfolding Config.get lookup pair_test beq
is_strict = refl

is_resumed : (start_id world 1 (codes "id") (some 60) store connection).2 ≡ ok (codes "id")
unfolding start_code Config.get Env.get lookup beq pair_test
is_resumed = refl

start_id-source_ip_example :
    let r = start_id world 1 (codes "id") (some 60) store connection in
    (p : ℕ) × (r.1.session.current_data ≡ some p)
    × ((r.0.objects p).source_ip ≡ remote_addr connection)
start_id-source_ip_example =
    start_id-source_ip world 1 (codes "id") (some 60) store connection store-Valid is_new
      (inl is_strict) (codes "id") is_resumed

start_id-Started_example :
    (k : ℕ) × (keepalive_of connection (some 60) ≡ ok k)
    × Started world
        (codes "id")
        k
        store
        connection
        (start_id world 1 (codes "id") (some 60) store connection)
        (codes "id")
start_id-Started_example =
    start_id-Started world 1 (codes "id") (some 60) store connection store-Valid is_new (codes "id")
      is_resumed

start_id-Valid_example : Valid (start_id world 1 (codes "id") (some 60) store connection).0
start_id-Valid_example = start_id-Valid world 1 (codes "id") (some 60) store connection store-Valid

default_keepalive : keepalive_of connection none ≡ ok 1800
unfolding keepalive_of setting Config.get lookup pair_test beq
default_keepalive = refl

default_divisor : HasDivisor connection
unfolding setting Config.get lookup pair_test beq
default_divisor = (99, refl)

unused_id : lookup (generate_id world (remote_addr connection) 0) store.session_data ≡ none
unfolding start_code Env.get lookup beq hex_dump
unused_id = refl

start_id_total_example : Returns (start_id world 1 (codes "other") none store connection)
start_id_total_example =
    start_id_total world 1 0 1800 (codes "other") none store connection default_keepalive
      default_divisor (omega arith) unused_id

get-set_example :
    let (st', r) = set (codes "k") (text (codes "w")) store (resumed 0) in
    (r ≡ ok tt)
    × (get st' (resumed 0) (codes "k") ≡ (
        if (0 == 0) && beq (codes "k") (codes "k")
        then text (codes "w")
        else get store (resumed 0) (codes "k")))
get-set_example =
    get-set (codes "k") (codes "k") (text (codes "w")) store (resumed 0) (resumed 0) 0 0 refl refl

invalidate_lem_example :
    let (st', c') = invalidate store (resumed 0) in
    (established c' ≡ false)
    × (lookup (codes "id") st'.session_data
        ≡ (if beq (codes "id") (codes "id") then none else lookup (codes "id") store.session_data))
    × (lookup (codes "S") c'.cookies ≡ none)
invalidate_lem_example = invalidate_lem (codes "id") store (resumed 0) 0 refl

lookup-collect_garbage_example :
    (lookup (codes "id") (collect_garbage 501 store).session_data
      ≡ elim (lookup (codes "id") store.session_data) [
        | none ↦ none
        | some p ↦ if time_lt (store.objects p).expires 501 then none else some p
      ])
    × ((collect_garbage 501 store).objects ≡ store.objects)
lookup-collect_garbage_example = lookup-collect_garbage 501 (codes "id") store store-Valid

is_found :
    (lookup (codes "id") store.session_data ≡ some 0)
    × ((store.objects 0).source_ip ≡ remote_addr connection)
unfolding Env.get lookup beq
is_found = (refl, refl)

start_id_resumed_example :
    let r = start_id world 1 (codes "id") (some 60) store connection in
    (r.1.session.current_data ≡ some 0)
    × (r.1.session.current_id ≡ codes "id")
    × ((r.0.objects 0).expires ≡ add_time world.now 60)
start_id_resumed_example =
    start_id_resumed world 1 60 0 (codes "id") (some 60) store connection is_new
      (unfold keepalive_of in refl) (λ e. cc) is_found.0 refl (inr is_found.1)
