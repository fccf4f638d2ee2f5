-- ===== src/Util/Queries.antt =====
-- `splitQueryString`, `parseHeaders` and `parseCookies` of src/util/utils.cpp.
pub mod RoundTrip
pub mod Fields
use nawa.Common.{
  ℕ, ◌+◌, ◌-◌, ◌%◌, Bool, true, false, not, ◌&&◌, ◌||◌, List, [], ◌∷◌, ◌++◌, Option, none, some,
  map, ltb, leb, ◌==◌, if◌then◌else◌, length, is_empty, Bytes, npos, find_first_of, substr,
}
use nawa.Common.Table.{text_eq, assign}
use nawa.Common.Number.{u64}
use nawa.Util.Strings.{split_string, to_lowercase}
use nawa.Util.Encoding.{url_decode}

-- A pair of a query. No pair is empty, so that `length() - 1` does not wrap around.
unfoldable pub query_entry : Bytes → Bytes × Bytes
query_entry p =
    let eq_pos = find_first_of b'=' p in
    (
      substr p 0 eq_pos,
      if ltb eq_pos (length p - 1) then url_decode (substr p (eq_pos + 1) npos) else [],
    )

unfoldable pub query_part : Bytes → Bytes
query_part query_string =
    let qmrk_pos = find_first_of b'?' query_string in
    if not (qmrk_pos == npos) && ltb qmrk_pos (length query_string)
    then substr query_string (qmrk_pos + 1) npos
    else if qmrk_pos == npos
    then query_string
    else []

-- An `unordered_multimap` keeps its elements in an order of its own, equal names included: how it
-- arranges those that are inserted one after another.
abbrev pub Arrangement : Type 0
Arrangement = List (Bytes × Bytes) → List (Bytes × Bytes)

unfoldable pub split_query_string : Arrangement → Bytes → List (Bytes × Bytes)
split_query_string arrange query_string =
    arrange (map query_entry (split_string (query_part query_string) b'&' true))

-- `boost::trim_left` and `boost::trim` in the C locale.
is_space : ℕ → Bool
is_space c = c == 32 || (leb 9 c && leb c 13)

unfoldable pub trim_left : Bytes → Bytes
unfolding is_space
trim_left [] = []
trim_left (c ∷ s) = let rest = trim_left s in if is_space c then rest else c ∷ s

trim_right : Bytes → Bytes
unfolding is_space
trim_right [] = []
trim_right (c ∷ s) = let rest = trim_right s in if is_empty rest && is_space c then [] else c ∷ rest

unfoldable pub trim : Bytes → Bytes
unfolding trim_right
trim s = trim_left (trim_right s)

-- A text with a separator as a key and a value, or `none` where the loop goes on. The sums wrap
-- around where the separator is absent.
unfoldable pub field : ℕ → Bytes → Option (Bytes × Bytes)
field separator s =
    let pos = find_first_of separator s in
    if ltb (length s) ((pos + 2) % u64)
    then none
    else some (substr s 0 pos, substr s ((pos + 1) % u64) npos)

without : ℕ → Bytes → Bytes
without c [] = []
without c (x ∷ s) = let rest = without c s in if x == c then rest else x ∷ rest

add_header_line : Bytes → List (Bytes × Bytes) → List (Bytes × Bytes)
add_header_line line headers = elim (field b':' line) [
  | none ↦ headers
  | some (key, val) ↦ assign (to_lowercase key) (trim_left val) headers
]

add_header_lines : List Bytes → List (Bytes × Bytes) → List (Bytes × Bytes)
unfolding add_header_line
add_header_lines [] headers = headers
add_header_lines (line ∷ lines) headers = add_header_lines lines (add_header_line line headers)

unfoldable pub parse_headers : Bytes → List (Bytes × Bytes)
unfolding without add_header_lines
parse_headers raw_headers = add_header_lines (split_string (without 13 raw_headers) 10 true) []

cookie_fields : List Bytes → List (Bytes × Bytes)
cookie_fields [] = []
cookie_fields (c ∷ cookies) =
    let rest = cookie_fields cookies in
    elim (field b'=' (trim c)) [ none ↦ rest | some entry ↦ entry ∷ rest ]

unfoldable pub parse_cookies : Bytes → List (Bytes × Bytes)
unfolding cookie_fields
parse_cookies raw_cookies = cookie_fields (split_string raw_cookies b';' true)
