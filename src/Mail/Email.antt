-- ===== src/Mail/Email.antt =====
-- src/mail/Email: an email has headers and a content, and its text is what is sent.
pub mod Receive
pub mod Laws
use nawa.Common.{
  Bool, false, ◌&&◌, ◌||◌, List, [], ◌∷◌, ◌++◌, Option, if◌then◌else◌, Bytes, codes, beq,
}
use nawa.Common.Result.{Result, ok, ◌>>=◌}
use nawa.Util.Encoding.{quoted_printable_encode}
use nawa.Util.Replace.{ReplacementRules}
use nawa.Mail.MimeEmail.{
  MimePartList, mime_part_list, MultipartType, multipart_type_to_string, Draws, gen_boundary,
  merge_mime_part_list, replaced,
}

-- `SimpleEmail`, with a text and whether it is encoded, and `MimeEmail`.
pub data Content : Type 0 where
  simple : Bytes → Bool → Content
  mime : MimePartList → Content

pub record Email : Type 0 where
  pub headers : List (Bytes × Bytes)
  pub content : Content

-- The headers except those that the email sets itself.
unfoldable pub header_text : (Bytes → Bool) → List (Bytes × Bytes) → Bytes
header_text own [] = []
header_text own ((key, value) ∷ headers) =
    let rest = header_text own headers in
    if own key then rest else key ++ 58 ∷ 32 ∷ (value ++ 13 ∷ 10 ∷ rest)

unfoldable pub sets_simple : Bool → Bytes → Bool
sets_simple encodes key =
    beq key (codes "MIME-Version") || (encodes && beq key (codes "Content-Transfer-Encoding"))

unfoldable pub sets_mime : Bytes → Bool
sets_mime key = beq key (codes "MIME-Version") || beq key (codes "Content-Type")

-- What stands before the text of a simple email.
unfoldable pub simple_head : List (Bytes × Bytes) → Bool → Bytes
simple_head headers encodes =
    header_text (sets_simple encodes) headers
    ++ codes "MIME-Version: 1.0"
    ++ (13 ∷ 10 ∷ [])
    ++ (if encodes
        then codes "Content-Transfer-Encoding: quoted-printable" ++ (13 ∷ 10 ∷ 13 ∷ 10 ∷ [])
        else 13 ∷ 10 ∷ [])

mime_head : List (Bytes × Bytes) → MultipartType → Bytes → Bytes
mime_head headers type boundary =
    header_text sets_mime headers
    ++ codes "MIME-Version: 1.0"
    ++ (13 ∷ 10 ∷ [])
    ++ codes "Content-Type: multipart/"
    ++ multipart_type_to_string type
    ++ codes "; boundary=\""
    ++ boundary
    ++ codes "\""
    ++ (13 ∷ 10 ∷ 13 ∷ 10 ∷ [])
    ++ codes "This is a multi-part message in MIME format"
    ++ (13 ∷ 10 ∷ 13 ∷ 10 ∷ [])

-- `getRaw`. The encoder has the line ending that is its default.
unfoldable pub get_raw : Draws → Email → Option ReplacementRules → Result Bytes
unfolding mime_head
get_raw d e rules = elim e.content [
  | simple text encodes ↦ replaced rules text >>= λ text'. ok (
      simple_head e.headers encodes
      ++ (if encodes then quoted_printable_encode text' (13 ∷ 10 ∷ []) false false else text'))
  | mime parts ↦ elim parts [
    | mime_part_list type rest ↦
        let boundary = gen_boundary d 0 in
        merge_mime_part_list d (mime_part_list type rest) boundary rules 1 >>= λ (text, made).
        ok (mime_head e.headers type boundary ++ text)
  ]
]
