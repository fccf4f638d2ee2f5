-- ===== src/Util/MimeMultipart.antt =====
-- `MimeMultipart::parse` of src/util/MimeMultipart.cpp.
pub mod Laws
use nawa.Common.{
  ℕ, zero, suc, ◌+◌, ◌-◌, Bool, true, false, not, ◌&&◌, ◌||◌, List, [], ◌∷◌, ◌++◌, Option, none,
  some, ltb, leb, ◌==◌, if◌then◌else◌, length, take, drop, is_empty, Bytes, codes, beq, npos,
  find_first_of, substr,
}
use nawa.Common.Table.{text_eq, lookup}
use nawa.Common.Result.{Result, ok, err, ◌>>=◌, exception, unfinished}
use nawa.Util.Queries.{parse_headers}

pub record Part : Type 0 where
  pub part_name : Bytes
  pub filename : Bytes
  pub content_type : Bytes
  pub headers : List (Bytes × Bytes)
  pub content : Bytes

pub record MimeMultipart : Type 0 where
  pub content_type : Bytes
  pub parts : List Part

unfoldable pub starts_with : Bytes → Bytes → Bool
starts_with [] s = true
starts_with (c ∷ t) [] = false
starts_with (c ∷ t) (x ∷ s) = c == x && starts_with t s

-- `s.find(t)`: the first position at which `t` stands.
unfoldable pub find_at : ℕ → Bytes → Bytes → ℕ
find_at i t [] = if is_empty t then i else npos
find_at i t (c ∷ s) = let later = find_at (suc i) t s in if starts_with t (c ∷ s) then i else later

-- `regex_search`: the first position at which a pattern matches, and what it captures there.
unfoldable pub search_first {ℓ} : {A : Type ℓ} → (Bytes → Option A) → Bytes → Option A
search_first match_at [] = match_at []
search_first match_at (c ∷ s) =
    let later = search_first match_at s in
    elim (match_at (c ∷ s)) [ some a ↦ some a | none ↦ later ]

-- The longest head in a class of characters, and the text behind it.
unfoldable pub span : (ℕ → Bool) → Bytes → Bytes × Bytes
span p [] = ([], [])
span p (c ∷ s) = let (head, rest) = span p s in if p c then (c ∷ head, rest) else ([], c ∷ s)

-- A literal text, and an optional character, at the head of a text.
literal : Bytes → Bytes → Option Bytes
literal t s = if starts_with t s then some (drop (length t) s) else none

optional : ℕ → Bytes → Bytes
optional c [] = []
optional c (x ∷ s) = if x == c then s else x ∷ s

-- A class under a plus captures one character at least.
captured : Bytes × Bytes → Option (Bytes × Bytes)
captured ([], rest) = none
captured (c ∷ head, rest) = some (c ∷ head, rest)

one_of : ℕ → Bytes → Bool
one_of c [] = false
one_of c (x ∷ xs) = c == x || one_of c xs

is_boundary_char : ℕ → Bool
unfolding one_of
is_boundary_char c =
    (leb b'A' c && leb c b'Z')
    || (leb b'a' c && leb c b'z')
    || (leb b'0' c && leb c b'9')
    || one_of c (codes "'()+_,-./:=? ")

is_unquoted : ℕ → Bool
is_unquoted c = not (c == b'"')

-- boundary="?([A-Za-z0-9'()+_,\-.\/:=? ]+)"?
match_boundary : Bytes → Option Bytes
match_boundary s = elim (literal (codes "boundary=") s) [
  | none ↦ none
  | some rest ↦ elim (captured (span is_boundary_char (optional b'"' rest))) [
    | none ↦ none
    | some (boundary, _) ↦ some boundary
  ]
]

-- A name of one or more characters but quotes, between optional quotes, behind a literal.
match_quoted_value : Bytes → Bytes → Option (Bytes × Bytes)
match_quoted_value prefix s = elim (literal prefix s) [
  | none ↦ none
  | some rest ↦ elim (captured (span is_unquoted (optional b'"' rest))) [
    | none ↦ none
    | some (value, behind) ↦ some (value, optional b'"' behind)
  ]
]

match_filename : Bytes → Bytes
match_filename s = elim (literal (codes ";") s) [
  | none ↦ []
  | some rest ↦ elim (match_quoted_value (codes "filename=") (optional 32 rest)) [
    | none ↦ []
    | some (name, _) ↦ name
  ]
]

-- (;| )name="?([^"]+)"?(; ?filename="?([^"]+)"?)?
match_names : Bytes → Option (Bytes × Bytes)
match_names [] = none
match_names (c ∷ s) =
    if c == b';' || c == 32
    then elim (match_quoted_value (codes "name=") s) [
      | none ↦ none
      | some (name, behind) ↦ some (name, match_filename behind)
    ]
    else none

names_or_empty : Option (Bytes × Bytes) → Bytes × Bytes
names_or_empty none = ([], [])
names_or_empty (some names) = names

unfoldable pub extract_part_and_file_name : Bytes → Bytes × Bytes
unfolding match_names match_quoted_value match_filename literal optional captured is_unquoted
    names_or_empty
extract_part_and_file_name disposition = names_or_empty (search_first match_names disposition)

or_empty : Option Bytes → Bytes
or_empty none = []
or_empty (some v) = v

disposition_names : Option Bytes → Bytes × Bytes
unfolding extract_part_and_file_name
disposition_names none = ([], [])
disposition_names (some disposition) = extract_part_and_file_name disposition

-- One part: its headers end at `headers_end_pos`, and the next boundary stands at `next_boundary_pos`.
unfoldable pub make_part : Bytes → ℕ → ℕ → Part
unfolding or_empty disposition_names
make_part content headers_end_pos next_boundary_pos =
    let headers = parse_headers (substr content 0 headers_end_pos) in
    let (part_name, filename) = disposition_names (lookup (codes "content-disposition") headers) in
    record {
      part_name = part_name;
      filename = filename;
      content_type = or_empty (lookup (codes "content-type") headers);
      headers = headers;
      content =
          if ltb (headers_end_pos + 7) next_boundary_pos
          then substr content (headers_end_pos + 4) (next_boundary_pos - 2 - (headers_end_pos + 4))
          else [];
    }

-- What one round of the loop ends with: an exception, the end mark, or a part and the text from the
-- next boundary on.
pub data Round : Type 0 where
  malformed finished : Round
  part : Part → Bytes → Round

abbrev pub crlf : Bytes
crlf = 13 ∷ 10 ∷ []

pub read_part : Bytes → Bytes → Round
unfolding make_part
read_part boundary content =
    let next_boundary_pos = find_at 0 boundary content in
    let found = find_at 0 (crlf ++ crlf) content in
    let headers_end_pos = if ltb next_boundary_pos found then next_boundary_pos else found in
    if next_boundary_pos == npos || ltb headers_end_pos 4
    then malformed
    else part (make_part content headers_end_pos next_boundary_pos)
        (substr content next_boundary_pos npos)

pub behind_boundary : Bytes → Bytes → Round
unfolding read_part
behind_boundary boundary content =
    if beq (substr content 0 2) (codes "--")
    then finished
    else if ltb (length content) (length boundary + 6) || not (beq (substr content 0 2) crlf)
    then malformed
    else read_part boundary (substr content 2 npos)

unfoldable pub round : Bytes → Bytes → Round
unfolding behind_boundary
round boundary content =
    if ltb (length content) (length boundary + 2)
      || not (beq (substr content 0 (length boundary)) boundary)
    then malformed
    else behind_boundary boundary (substr content (length boundary) npos)

-- `while (!content.empty())`, with the parts so far. Each round consumes the boundary, so
-- the text's length is fuel enough. The exceptions leave the parts that were read.
unfoldable pub parse_loop : ℕ → Bytes → Bytes → List Part → List Part × Result (Unit {0})
parse_loop fuel boundary [] parts = (parts, ok tt)
parse_loop zero boundary (c ∷ content) parts = (parts, err unfinished)
parse_loop (suc fuel) boundary (c ∷ content) parts = elim (round boundary (c ∷ content)) [
  | malformed ↦ (parts, err (exception 2))
  | finished ↦ (parts, ok tt)
  | part p rest ↦ parse_loop fuel boundary rest (parts ++ p ∷ [])
]

unfoldable pub find_boundary : Bytes → Option Bytes
unfolding match_boundary literal optional captured is_boundary_char
find_boundary content_type = search_first match_boundary content_type

pub parsed :
    Bytes → MimeMultipart → List Part × Result (Unit {0}) → MimeMultipart × Result (Unit {0})
parsed content_type m (parts, err e) = (record m { parts = parts }, err e)
parsed content_type m (parts, ok _) = (
  record { content_type = substr content_type 0 (find_first_of b';' content_type); parts = parts },
  ok tt,
)

unfoldable pub parse : Bytes → Bytes → MimeMultipart → MimeMultipart × Result (Unit {0})
unfolding parsed
parse content_type content m = elim (find_boundary content_type) [
  | none ↦ (m, err (exception 1))
  | some boundary ↦
      parsed content_type m (parse_loop (length content) (codes "--" ++ boundary) content m.parts)
]

unfoldable pub clear : MimeMultipart → MimeMultipart
clear m = record { content_type = []; parts = [] }
