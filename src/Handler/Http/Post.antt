-- ===== src/Handler/Http/Post.antt =====
-- From a POST request to the variables that its body holds.
use nawa.Common.{
  ℕ, ◌+◌, ◌≤◌, ◌<◌, ◌^◌, ◌≡◌, refl, true, false, List, [], ◌∷◌, ◌++◌, some, ltb, if◌then◌else◌,
  length, All, arith, Bytes, codes, beq,
}
use nawa.Common.Table.{text_eq, lookup}
use nawa.Common.Result.{ok}
use nawa.Common.Number.{stoul}
use nawa.Util.Queries.{Arrangement}
use nawa.Config.{Config}
use nawa.Session.Autostart.{ConnectionInit}
use nawa.Request.Env
use nawa.Handler.Environment.{HttpRequest}
use nawa.Handler.Body.{Read, server_error, handle, fill, finish_body, process_body, consume_all}
use nawa.Handler.Body.Laws.{Exact, inputs, consume_all_lem}
use nawa.Handler.Http.{
  waiting, http_connection_init, read_raw_access, read_max_size, input_handler, catch_numbers,
  read_post, respond,
}

abbrev pub with_body : Arrangement → ConnectionInit → Bytes → ConnectionInit
with_body arrange init body = record init {
  request_init = process_body arrange (read_raw_access init.config) body init.request_init;
}

-- A POST request with a content length within the maximum is read, and as soon as the reads have
-- brought that many bytes it is handled with all of them as its body, however the body is cut; the
-- error page is sent instead only if the last read goes past the maximum.
pub respond-consume_all :
    (r : HttpRequest) (config : Config) (header : Bytes) (n largest : ℕ) (reads : List Read)
    (last : Read)
    → let init = http_connection_init r config in
      beq r.method (codes "POST") ≡ true
      → lookup (codes "content-length") init.request_init.environment ≡ some header
      → stoul header ≡ ok n
      → read_max_size config ≡ ok largest
      → n ≤ largest
      → All Exact reads
      → Exact last
      → length (inputs reads) < n
      → n ≤ length (inputs reads) + length last.input
      → length (inputs reads) + length last.input < 2 ^ 63
      → let body = inputs reads ++ last.input in
        let h = input_handler r.arrange init largest n in
        (respond r config ≡ ok (waiting h))
        × (consume_all (reads ++ last ∷ []) h ≡ (
            if ltb largest (length body)
            then server_error
            else handle (with_body r.arrange init body)))
unfolding respond read_post Env.get http_connection_init catch_numbers input_handler fill
    finish_body
respond-consume_all r config header n largest reads last post there number size fits exact e short
      full small =
    let init = http_connection_init r config in
    let within : ltb largest n ≡ false = ground arith in
    (
      rw (post, there, respond, number, size, within) refl,
      consume_all_lem (input_handler r.arrange init largest n) reads last exact e
          (omega (arith, short), omega (arith, full), fits, omega (arith, small)),
    )
