-- ===== src/Mail/MimeEmail.antt =====
-- The parts of src/mail/Email/impl/MimeEmail.cpp and their text.
use nawa.Common.{
  ℕ, suc, Bool, false, List, [], ◌∷◌, ◌++◌, Option, none, some, if◌then◌else◌, Bytes, codes,
}
use nawa.Common.Result.{Result, ok, ◌>>=◌}
use nawa.Common.Number.{to_string}
use nawa.Util.Encoding.{quoted_printable_encode}
use nawa.Util.Replace.{ReplacementRules, string_replace}

pub data MultipartType : Type 0 where
  mixed digest alternative related report signed encrypted : MultipartType

unfoldable pub multipart_type_to_string : MultipartType → Bytes
multipart_type_to_string mixed = codes "mixed"
multipart_type_to_string digest = codes "digest"
multipart_type_to_string alternative = codes "alternative"
multipart_type_to_string related = codes "related"
multipart_type_to_string report = codes "report"
multipart_type_to_string signed = codes "signed"
multipart_type_to_string encrypted = codes "encrypted"

pub data ApplyEncoding : Type 0 where
  base64 quoted_printable as_is : ApplyEncoding

pub record MimePart : Type 0 where
  pub content_type : Bytes
  pub content_disposition : Bytes
  pub apply_encoding : ApplyEncoding
  pub part_headers : List (Bytes × Bytes)
  pub allow_replacements : Bool
  pub part_data : Bytes

-- A list of parts, each of which is a part with content, another list, or neither.
mutual
  pub data MimePartList : Type 0 where
    mime_part_list : MultipartType → MimeParts → MimePartList

  pub data MimeParts : Type 0 where
    end_of_parts : MimeParts
    part_then : MimePart → MimeParts → MimeParts
    list_then : MimePartList → MimeParts → MimeParts
    unset_then : MimeParts → MimeParts

-- What the texts use from outside: random numbers by their position, MD5 and the base64 encoder.
pub record Draws : Type 0 where
  pub random : ℕ → ℕ
  pub md5 : Bytes → Bytes
  pub base64_encode : Bytes → Bytes

crlf : Bytes
crlf = 13 ∷ 10 ∷ []

part_header_lines : List (Bytes × Bytes) → Bytes
part_header_lines [] = []
part_header_lines ((key, value) ∷ headers) =
    key ++ 58 ∷ 32 ∷ (value ++ 13 ∷ 10 ∷ part_header_lines headers)

-- The rules are applied where there are any.
unfoldable pub replaced : Option ReplacementRules → Bytes → Result Bytes
replaced none s = ok s
replaced (some rules) s = string_replace rules s

module _ (d : Draws) where
  unfoldable pub gen_boundary : ℕ → Bytes
  gen_boundary i = codes "----=_" ++ d.md5 (to_string (d.random i))

  encoded : ApplyEncoding → Bytes → Bytes
  unfolding crlf
  encoded base64 s = codes "Content-Transfer-Encoding: base64" ++ crlf ++ crlf ++ d.base64_encode s
  encoded quoted_printable s =
      codes "Content-Transfer-Encoding: quoted-printable"
      ++ crlf
      ++ crlf
      ++ quoted_printable_encode s crlf false false
  encoded as_is s = crlf ++ s

  disposition_line : Bytes → Bytes
  unfolding crlf
  disposition_line [] = []
  disposition_line (c ∷ s) = codes "Content-Disposition: " ++ (c ∷ s) ++ crlf

  -- A part with content.
  unfoldable pub part_text : MimePart → Option ReplacementRules → Result Bytes
  unfolding crlf part_header_lines encoded disposition_line
  part_text p rules =
      replaced (if p.allow_replacements then rules else none) p.part_data >>= λ text. ok (
        codes "Content-Type: "
        ++ p.content_type
        ++ crlf
        ++ disposition_line p.content_disposition
        ++ part_header_lines p.part_headers
        ++ encoded p.apply_encoding text
        ++ crlf
        ++ crlf)

  -- The head of a nested list, with its boundary.
  list_head : MultipartType → Bytes → Bytes
  unfolding crlf
  list_head type boundary =
      codes "Content-Type: multipart/"
      ++ multipart_type_to_string type
      ++ codes "; boundary=\""
      ++ boundary
      ++ codes "\""
      ++ crlf
      ++ crlf

  -- The text of the parts, and how many boundaries have been made.
  unfoldable mutual
    unfolding list_head crlf

    pub merge_mime_part_list :
        MimePartList → Bytes → Option ReplacementRules → ℕ → Result (Bytes × ℕ)
    merge_mime_part_list (mime_part_list type parts) boundary rules i =
        merge_parts parts boundary rules i >>= λ (text, j).
        ok (text ++ codes "--" ++ boundary ++ codes "--", j)

    pub merge_parts : MimeParts → Bytes → Option ReplacementRules → ℕ → Result (Bytes × ℕ)
    merge_parts end_of_parts boundary rules i = ok ([], i)
    merge_parts (part_then p parts) boundary rules i = part_text p rules >>= λ text.
        (merge_parts parts boundary rules i >>= λ (rest, j).
        ok (codes "--" ++ boundary ++ crlf ++ text ++ rest, j))
    merge_parts (list_then (mime_part_list type nested) parts) boundary rules i =
        let own = gen_boundary i in
        merge_mime_part_list (mime_part_list type nested) own rules (suc i) >>= λ (text, j).
        (merge_parts parts boundary rules j >>= λ (rest, k).
        ok
          (codes "--" ++ boundary ++ crlf ++ list_head type own ++ text ++ crlf ++ crlf ++ rest, k))
    merge_parts (unset_then parts) boundary rules i =
        merge_parts parts boundary rules i >>= λ (rest, j).
        ok (codes "--" ++ boundary ++ crlf ++ rest, j)
