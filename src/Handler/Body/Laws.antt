-- ===== src/Handler/Body/Laws.antt =====
-- A body arrives whole, however it is cut into reads.
use nawa.Common.{
  ◌+◌, ◌%◌, ◌≤◌, ◌<◌, ◌^◌, ◌≡◌, refl, sym, ap, ◌∙◌, true, false, List, [], ◌∷◌, ◌++◌, ltb,
  if◌then◌else◌, length, All, inl, inr, Bool-cases, arith, append_assoc, append-nil, length-append,
  Bytes,
}
use nawa.Common.Number.{u64}
use nawa.Handler.Body.{
  Read, InputHandler, ReadOutcome, server_error, read_more, handle, fill, finish_body,
  consume_input, consume_all,
}

-- A read without an error that reports the size of its input.
abbrev pub Exact : Read → Type 0
Exact r = (r.is_eof ≡ false) × (r.bytes_transferred ≡ length r.input)

unfoldable pub inputs : List Read → Bytes
inputs [] = []
inputs (r ∷ reads) = r.input ++ inputs reads

fill-append : (a b : Bytes) (h : InputHandler) → fill b (fill a h) ≡ fill (a ++ b) h
unfolding fill
fill-append a b h = ap (λ s. record h { post_body = s }) (append_assoc h.post_body a b)

fill-nil : (h : InputHandler) → fill [] h ≡ h
unfolding fill
fill-nil h = ap (λ s. record h { post_body = s }) (append-nil h.post_body)

consume_input-read_more :
    (r : Read) (h : InputHandler)
    → Exact r
    → length h.post_body + length r.input < h.expected_size
    → h.expected_size ≤ h.max_post_size
    → length h.post_body + length r.input < 2 ^ 63
    → consume_input r h ≡ read_more (fill r.input h)
unfolding consume_input fill
consume_input-read_more r h (e, n) short within fits =
    let size = length-append h.post_body r.input in
    let room : ltb h.max_post_size ((length h.post_body + length r.input) % u64) ≡ false =
      ground (arith, size) in
    let more : ltb (length (h.post_body ++ r.input)) h.expected_size ≡ true =
      ground (arith, size) in
    rw (e, n, room, more) refl

-- What the code does with a body that is complete.
abbrev pub arrive : InputHandler → ReadOutcome
arrive h = if ltb h.max_post_size (length h.post_body) then server_error else handle (finish_body h)

consume_last :
    (r : Read) (h : InputHandler)
    → Exact r
    → h.expected_size ≤ length h.post_body + length r.input
    → length h.post_body + length r.input < 2 ^ 63
    → consume_input r h ≡ arrive (fill r.input h)
unfolding consume_input fill
consume_last r h (e, n) full fits =
    let size = length-append h.post_body r.input in
    let small : (length h.post_body + length r.input) % u64 ≡ length h.post_body + length r.input =
      omega (arith, size) in
    let done : ltb (length (h.post_body ++ r.input)) h.expected_size ≡ false =
      ground (arith, size) in
    rw (e, n, small, done, size) refl

-- The reads before the last one leave the body short.
abbrev Arrives : InputHandler → List Read → Read → Type 0
Arrives h reads last =
    let total = length h.post_body + length (inputs reads) in
    (total < h.expected_size)
    × (h.expected_size ≤ total + length last.input)
    × (h.expected_size ≤ h.max_post_size)
    × (total + length last.input < 2 ^ 63)

abbrev resume : List Read → ReadOutcome → ReadOutcome
resume reads o = elim o [
  | server_error ↦ server_error
  | read_more h ↦ consume_all reads h
  | handle init ↦ handle init
]

-- The outcome of a complete body is final: there is no further read.
resume-arrive : (reads : List Read) (h : InputHandler) → resume reads (arrive h) ≡ arrive h
resume-arrive reads h = elim (Bool-cases (ltb h.max_post_size (length h.post_body))) [
  | inl large ↦ rw large refl
  | inr fits ↦ rw fits refl
]

-- However a body is cut into reads, and whatever the reads before the last are, the request is
-- handled once, with all of the body, as soon as the expected size is there; only where the last
-- read brings more than the maximum there is an error page instead.
pub consume_all_lem :
    (h : InputHandler) (reads : List Read) (last : Read)
    → All Exact reads
    → Exact last
    → Arrives h reads last
    → consume_all (reads ++ last ∷ []) h ≡ arrive (fill (inputs reads ++ last.input) h)
unfolding consume_all inputs fill
consume_all_lem h [] last exact e a =
    ap (resume []) (consume_last last h e (omega (arith, a)) (omega (arith, a)))
    ∙ resume-arrive [] (fill last.input h)
consume_all_lem h (r ∷ reads) last (exact, rest) e a =
    let all = length-append r.input (inputs reads) in
    let size = length-append h.post_body r.input in
    ap (resume (reads ++ last ∷ [])) (
      consume_input-read_more r h exact (omega (arith, a, all)) (omega (arith, a))
        (omega (arith, a, all)))
    ∙ consume_all_lem (fill r.input h) reads last rest e (
      omega (arith, a, all, size),
      omega (arith, a, all, size),
      omega (arith, a),
      omega (arith, a, all, size),
    )
    ∙ ap arrive (fill-append r.input (inputs reads ++ last.input) h)
    ∙ ap (λ s. arrive (fill s h)) (sym (append_assoc r.input (inputs reads) last.input))
