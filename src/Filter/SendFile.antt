-- ===== src/Filter/SendFile.antt =====
-- `Connection::sendFile` of src/connection/Connection.cpp.
use nawa.Common.{
  ℕ, Bool, true, false, ◌&&◌, [], ◌∷◌, ◌++◌, Option, none, some, if◌then◌else◌, length, is_empty,
  Bytes, codes,
}
use nawa.Common.Result.{Result, ok, err, exception}
use nawa.Common.Number.{stol, to_string, time_le, time_lt}
use nawa.Util.Strings.{get_file_extension}
use nawa.Util.ContentType.{content_type_by_extension}
use nawa.Util.Time.{Tm, make_http_time}
use nawa.Request.Env
use nawa.Connection.State.{Connection}
use nawa.Connection.Response.{set_status, set_response_body, set_header}

-- A file that can be opened: its bytes, and its time of last modification, 0 where `stat` fails.
pub record FileInfo : Type 0 where
  pub contents : Bytes
  pub last_modified : ℕ

-- Every exception of `stol` leaves the 0.
or_zero : Result ℕ → ℕ
or_zero (ok t) = t
or_zero (err e) = 0

pub if_modified_since : Connection → ℕ
unfolding or_zero
if_modified_since c = or_zero (stol (Env.get c.request.env (codes "if-modified-since")))

quoted : Bytes → Bytes → Bytes
quoted kind name = kind ++ (codes "; filename=\"" ++ (name ++ b'"' ∷ []))

disposition : Bool → Bytes → Connection → Connection
disposition true [] c = set_header (codes "content-disposition") (codes "attachment") c
disposition true (b ∷ name) c =
    set_header (codes "content-disposition") (quoted (codes "attachment") (b ∷ name)) c
disposition false [] c = c
disposition false (b ∷ name) c =
    set_header (codes "content-disposition") (quoted (codes "inline") (b ∷ name)) c

module _ (gmtime : ℕ → Option Tm) where
  -- A time that cannot be converted is logged, and the header left out.
  modified_header : ℕ → Connection → Connection
  modified_header t c =
      if time_lt 0 t
      then elim (make_http_time gmtime t) [
        | ok text ↦ set_header (codes "last-modified") text c
        | err e ↦ c
      ]
      else c

  -- The headers and the body. The body is resized to one byte more than the file, a null byte.
  pub send_contents : FileInfo → Bytes → Bytes → Bool → Bytes → Connection → Connection
  send_contents f path content_type force_download download_filename c =
      let kind =
        if is_empty content_type
        then content_type_by_extension (get_file_extension path)
        else content_type in
      let c1 = set_header (codes "content-type") kind c in
      let c2 = disposition force_download download_filename c1 in
      let c3 = set_header (codes "content-length") (to_string (length f.contents)) c2 in
      set_response_body (f.contents ++ 0 ∷ []) (modified_header f.last_modified c3)

  unfoldable pub send_file :
      (Bytes → Option FileInfo)
      → Bytes
      → Bytes
      → Bool
      → Bytes
      → Bool
      → Connection
      → Connection × Result (Unit {0})
  send_file open_file path content_type force_download download_filename check_if_modified_since c =
      elim (open_file path) [
        | none ↦ (c, err (exception 1))
        | some f ↦
            if check_if_modified_since && time_le f.last_modified (if_modified_since c)
            then (set_response_body [] (set_status 304 c), ok tt)
            else (send_contents f path content_type force_download download_filename c, ok tt)
      ]
