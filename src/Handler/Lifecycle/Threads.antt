-- ===== src/Handler/Lifecycle/Threads.antt =====
-- Every thread that the HTTP handler starts is joined, once.
use nawa.Common.{
  ℕ, zero, suc, ◌+◌, ◌≡◌, refl, sym, ap, arith, true, not, ◌&&◌, List, [], ◌∷◌, ◌++◌, inl, inr,
  Bool-cases,
}
use nawa.Handler.Lifecycle.{
  Call, launch, stop_server, terminate_server, await, Luck, Command, start_with, stop_now,
  terminate_now, join_now,
}
use nawa.Handler.Lifecycle.Http.{
  HttpData, launch_threads, repeat, http_start, http_stop, http_join, http_drop, http_exec,
}

pub launches : List Call → ℕ
launches [] = 0
launches (launch ∷ calls) = suc (launches calls)
launches (stop_server ∷ calls) = launches calls
launches (terminate_server ∷ calls) = launches calls
launches (await ∷ calls) = launches calls

pub awaits : List Call → ℕ
awaits [] = 0
awaits (launch ∷ calls) = awaits calls
awaits (stop_server ∷ calls) = awaits calls
awaits (terminate_server ∷ calls) = awaits calls
awaits (await ∷ calls) = suc (awaits calls)

-- The calls of a handler that is given commands.
unfoldable pub http_calls : List Command → HttpData → HttpData × List Call
http_calls [] d = (d, [])
http_calls (command ∷ commands) d =
    let (d', calls, r) = http_exec command d in
    let (d'', more) = http_calls commands d' in (d'', calls ++ more)

counts-append :
    (calls more : List Call)
    → (launches (calls ++ more) ≡ launches calls + launches more)
      × (awaits (calls ++ more) ≡ awaits calls + awaits more)
unfolding launches awaits
counts-append [] more = (omega arith, omega arith)
counts-append (launch ∷ calls) more =
    let h = counts-append calls more in (omega (arith, h), omega (arith, h))
counts-append (stop_server ∷ calls) more = counts-append calls more
counts-append (terminate_server ∷ calls) more = counts-append calls more
counts-append (await ∷ calls) more =
    let h = counts-append calls more in (omega (arith, h), omega (arith, h))

repeat-launch : (n : ℕ) → (launches (repeat n launch) ≡ n) × (awaits (repeat n launch) ≡ 0)
unfolding launches awaits repeat
repeat-launch zero = (refl, refl)
repeat-launch (suc n) = (ap suc (repeat-launch n).0, (repeat-launch n).1)

repeat-await : (n : ℕ) → (launches (repeat n await) ≡ 0) × (awaits (repeat n await) ≡ n)
unfolding launches awaits repeat
repeat-await zero = (refl, refl)
repeat-await (suc n) = ((repeat-await n).0, ap suc (repeat-await n).1)

-- The pool is empty once it is joined.
abbrev Pool : HttpData → Type 0
Pool d = d.joined ≡ true → d.threads ≡ 0

-- Launched threads are in the pool until they are joined.
abbrev Balanced : HttpData → HttpData × List Call → Type 0
Balanced d (d', calls) = (launches calls + d.threads ≡ awaits calls + d'.threads) × Pool d'

start-Balanced :
    (luck : Luck) (d : HttpData)
    → Pool d
    → let (d', calls, r) = http_start luck d in Balanced d (d', calls)
unfolding http_start launches awaits
start-Balanced luck d pool =
    let (k, done) = launch_threads luck 0 d.concurrency in
    let (l, a) = repeat-launch k in
    elim (Bool-cases d.request_handling_active) [
      | inl active ↦ rw (active, http_start) (refl, pool)
      | inr still ↦ elim (Bool-cases d.joined) [
        | inl over ↦ rw (still, over, http_start) (refl, λ h. pool over)
        | inr going ↦ elim (Bool-cases d.has_server) [
          | inr missing ↦ rw (still, going, missing, http_start) (refl, λ h. cc)
          | inl there ↦ elim (Bool-cases done) [
            | inl all ↦ rw (still, going, there, all, http_start) (omega (arith, l, a), λ h. cc)
            | inr some ↦ rw (still, going, there, some, http_start) (omega (arith, l, a), λ h. cc)
          ]
        ]
      ]
    ]

join-Balanced : (d : HttpData) → Pool d → Balanced d (http_join d)
unfolding http_join launches awaits
join-Balanced d pool =
    let (l, a) = repeat-await d.threads in
    elim (Bool-cases d.joined) [
      | inl over ↦ rw (over, http_join) (refl, λ h. pool over)
      | inr going ↦ rw (going, http_join) (omega (arith, l, a), λ h. refl)
    ]

stop-Balanced : (d : HttpData) → Pool d → Balanced d (http_stop d)
unfolding http_stop launches awaits
stop-Balanced d pool = elim (Bool-cases (not d.joined && d.has_server)) [
  | inl told ↦ rw (told, http_stop) (refl, pool)
  | inr quiet ↦ rw (quiet, http_stop) (refl, pool)
]

exec-Balanced :
    (command : Command) (d : HttpData)
    → Pool d
    → let (d', calls, r) = http_exec command d in Balanced d (d', calls)
unfolding http_exec
exec-Balanced (start_with luck) d pool = start-Balanced luck d pool
exec-Balanced stop_now d pool = stop-Balanced d pool
exec-Balanced terminate_now d pool = stop-Balanced d pool
exec-Balanced join_now d pool = join-Balanced d pool

http_calls-Balanced :
    (commands : List Command) (d : HttpData) → Pool d → Balanced d (http_calls commands d)
unfolding http_calls launches awaits
http_calls-Balanced [] d pool = (refl, pool)
http_calls-Balanced (command ∷ commands) d pool =
    let (d', calls, r) = http_exec command d in
    let (d'', more) = http_calls commands d' in
    let (one, pool') = exec-Balanced command d pool in
    let (rest, pool'') = http_calls-Balanced commands d' pool' in
    let (l, a) = counts-append calls more in (omega (arith, one, rest, l, a), pool'')

drop_lem :
    (d : HttpData) → Pool d → (launches (http_drop d) ≡ 0) × (awaits (http_drop d) ≡ d.threads)
unfolding http_drop launches awaits
drop_lem d pool =
    let (l, a) = repeat-await d.threads in
    elim (Bool-cases d.joined) [
      | inl over ↦ elim (Bool-cases d.request_handling_active) [
        | inl active ↦ rw (over, active, http_drop) (refl, sym (pool over))
        | inr still ↦ rw (over, still, http_drop) (refl, sym (pool over))
      ]
      | inr going ↦ elim (Bool-cases d.request_handling_active) [
        | inl active ↦ rw (going, active, http_drop) (l, a)
        | inr still ↦ rw (going, still, http_drop) (l, a)
      ]
    ]

-- Whatever a handler without threads is told, and whether its starts succeed, fail midway or are
-- tried again: when it has been destroyed, as many threads have been joined as were started.
pub launches-awaits :
    (commands : List Command) (d : HttpData)
    → d.threads ≡ 0
    → let (d', calls) = http_calls commands d in
      launches (calls ++ http_drop d') ≡ awaits (calls ++ http_drop d')
launches-awaits commands d none =
    let (d', calls) = http_calls commands d in
    let (all, pool) = http_calls-Balanced commands d (λ h. none) in
    let (l, a) = counts-append calls (http_drop d') in
    omega (arith, all, l, a, drop_lem d' pool, none)
