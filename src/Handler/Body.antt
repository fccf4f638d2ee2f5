-- ===== src/Handler/Body.antt =====
-- `InputConsumingHttpHandler` of src/RequestHandler/impl/HttpRequestHandler.cpp, which collects the
-- body of a POST request and turns it into the request's variables and files.
pub mod Laws
use nawa.Common.{
  ℕ, ◌+◌, ◌%◌, Bool, true, false, not, ◌&&◌, ◌||◌, List, [], ◌∷◌, ◌++◌, Option, none, some, ltb,
  if◌then◌else◌, length, is_empty, Bytes, codes, beq, substr,
}
use nawa.Common.Result.{Result, ok, err}
use nawa.Common.Number.{u64}
use nawa.Util.Strings.{to_lowercase}
use nawa.Util.Queries.{Arrangement, split_query_string}
use nawa.Util.MimeMultipart
use nawa.Util.MimeMultipart.{Part}
use nawa.Request.Init.{RequestInit, File}
use nawa.Request.Env
use nawa.Session.Autostart.{ConnectionInit}
use nawa.Handler.Environment.{touch}

pub data RawPostAccess : Type 0 where
  never nonstandard always : RawPostAccess

-- What cpp-netlib hands to the read callback: whether the error code is `eof`, the range of the
-- input, and its size.
pub record Read : Type 0 where
  pub is_eof : Bool
  pub input : Bytes
  pub bytes_transferred : ℕ

-- `maxPostSize` is the pattern of its 64 bits, as the comparison with a size reads it. The
-- order of hash tables is that of the request.
pub record InputHandler : Type 0 where
  pub connection_init : ConnectionInit
  pub max_post_size : ℕ
  pub expected_size : ℕ
  pub post_body : Bytes
  pub raw_post_access : RawPostAccess
  pub arrange : Arrangement

-- What a callback ends with: an error page, another read, or a request to be handled.
pub data ReadOutcome : Type 0 where
  server_error : ReadOutcome
  read_more : InputHandler → ReadOutcome
  handle : ConnectionInit → ReadOutcome

unfoldable pub is_file : Part → Bool
is_file p =
    let plain = codes "text/plain" in
    not (is_empty p.filename)
    || (not (is_empty p.content_type) && not (beq (substr p.content_type 0 (length plain)) plain))

unfoldable pub add_part : Part → RequestInit → RequestInit
add_part p init =
    if is_file p
    then record init {
      post_files =
          init.post_files
          ++ (
            p.part_name,
            record { filename = p.filename; content_type = p.content_type; contents = p.content },
          )
            ∷ [];
    }
    else record init { post_vars = init.post_vars ++ (p.part_name, p.content) ∷ [] }

unfoldable pub add_parts : List Part → RequestInit → RequestInit
add_parts [] init = init
add_parts (p ∷ parts) init = add_parts parts (add_part p init)

-- An exception of the parser is caught, and nothing of the payload is kept.
unfoldable pub add_payload : Bytes → Bytes → RequestInit → RequestInit
add_payload content_type body init =
    let empty : MimeMultipart.MimeMultipart = record { content_type = []; parts = [] } in
    let (payload, r) = MimeMultipart.parse content_type body empty in
    elim r [ ok _ ↦ add_parts payload.parts init | err e ↦ init ]

abbrev keeps_always : RawPostAccess → Bool
keeps_always never = false
keeps_always nonstandard = false
keeps_always always = true

abbrev keeps_nonstandard : RawPostAccess → Bool
keeps_nonstandard never = false
keeps_nonstandard nonstandard = true
keeps_nonstandard always = false

keep_raw : Bool → Bytes → RequestInit → RequestInit
keep_raw keep body init = if keep then record init { raw_post = some body } else init

-- The complete body as variables, files or raw data, by its content type.
unfoldable pub process_body : Arrangement → RawPostAccess → Bytes → RequestInit → RequestInit
unfolding keep_raw
process_body arrange access body init =
    let multipart = codes "multipart/form-data" in
    let environment = touch (codes "content-type") init.environment in
    let content_type = Env.get environment (codes "content-type") in
    let post_content_type = to_lowercase content_type in
    let init' = keep_raw (keeps_always access) body (record init { environment = environment }) in
    if beq post_content_type (codes "application/x-www-form-urlencoded")
    then record init' {
      post_content_type = post_content_type;
      post_vars = split_query_string arrange body;
    }
    else if beq (substr post_content_type 0 (length multipart)) multipart
    then add_payload content_type body init'
    else keep_raw (keeps_nonstandard access) body init'

-- `postBody.insert` at its end.
unfoldable pub fill : Bytes → InputHandler → InputHandler
fill input h = record h { post_body = h.post_body ++ input }

-- The connection that a complete body is handled with.
unfoldable pub finish_body : InputHandler → ConnectionInit
finish_body h = record (h.connection_init) {
  request_init =
      process_body h.arrange h.raw_post_access h.post_body h.connection_init.request_init;
}

-- The read callback.
unfoldable pub consume_input : Read → InputHandler → ReadOutcome
consume_input r h =
    let filled = fill r.input h in
    if r.is_eof
    then server_error
    else if ltb h.max_post_size ((length h.post_body + r.bytes_transferred) % u64)
    then server_error
    else if ltb (length filled.post_body) h.expected_size
    then read_more filled
    else handle (finish_body filled)

-- The callback after every read, until it asks for no more.
unfoldable pub consume_all : List Read → InputHandler → ReadOutcome
consume_all [] h = read_more h
consume_all (r ∷ reads) h = elim (consume_input r h) [
  | server_error ↦ server_error
  | read_more h' ↦ consume_all reads h'
  | handle init ↦ handle init
]
