-- ===== src/Util/Encoding.antt =====
-- URL encoding, and quoted-printable and Q encoding, of src/util/encoding.cpp.
pub mod Digits
pub mod Url
pub mod QuotedPrintable
pub mod Words
use nawa.Common.{
  ℕ, suc, ◌+◌, ◌-◌, ◌*◌, ◌/◌, ◌%◌, Bool, true, false, not, ◌&&◌, ◌||◌, List, [], ◌∷◌, ◌++◌, Option,
  none, some, ltb, leb, ◌==◌, if◌then◌else◌, Bytes, codes, beq,
}
use nawa.Util.Strings.{hex_dump, to_uppercase, replace_byte}
use nawa.Util.Regex.{Matcher, regex_replace_callback}

-- `urlUnreserved`.
unfoldable pub is_unreserved : ℕ → Bool
is_unreserved c =
    (leb b'A' c && leb c b'Z')
    || (leb b'a' c && leb c b'z')
    || (leb b'0' c && leb c b'9')
    || c == b'-'
    || c == b'_'
    || c == b'.'
    || c == b'~'

-- `uppercase << hex` of one digit.
unfoldable pub upper_digit : ℕ → ℕ
upper_digit d = if ltb d 10 then b'0' + d else b'A' + (d - 10)

unfoldable pub url_encode : Bytes → Bytes
unfolding is_unreserved upper_digit
url_encode [] = []
url_encode (c ∷ s) =
    let rest = url_encode s in
    if is_unreserved c then c ∷ rest else b'%' ∷ upper_digit (c / 16) ∷ upper_digit (c % 16) ∷ rest

-- The class [0-9A-F], and `stoul` to base 16 of a digit in it.
unfoldable pub is_hex : ℕ → Bool
is_hex c = (leb b'0' c && leb c b'9') || (leb b'A' c && leb c b'F')

unfoldable pub hex_value : ℕ → ℕ
hex_value c = if leb c b'9' then c - b'0' else c - b'A' + 10

-- `matches.at(1)` is there in every match of the two patterns.
unfoldable pub replace_code : List Bytes → Bytes
unfolding hex_value
replace_code (whole ∷ (a ∷ b ∷ []) ∷ rest) = (hex_value a * 16 + hex_value b) ∷ []
replace_code _ = []

-- The pattern %([0-9A-F]{2}).
unfoldable pub match_code : Matcher
unfolding is_hex
match_code (p ∷ a ∷ b ∷ s) =
    if (p == b'%') && is_hex a && is_hex b
    then some ((p ∷ a ∷ b ∷ []) ∷ (a ∷ b ∷ []) ∷ [], s)
    else none
match_code _ = none

unfoldable pub url_decode : Bytes → Bytes
url_decode input = regex_replace_callback match_code 1 replace_code input

-- `quotedPrintableEncode`: what one character adds to the text, and the characters in the line then.
unfoldable pub is_literal : Bool → ℕ → Bool
is_literal q c =
    leb 32 c && leb c 126 && not (c == 61) && not (q && (c == 32 || c == 63 || c == 95))

unfoldable pub escaped : ℕ → Bytes
unfolding hex_dump to_uppercase
escaped c = b'=' ∷ to_uppercase (hex_dump (c ∷ []))

unfoldable pub encode_char : Bytes → Bool → Bool → ℕ → ℕ → Bytes × ℕ
encode_char line_ending replace_crlf q line_count c =
    if is_literal q c
    then (if not q && leb 75 line_count
        then (b'=' ∷ (line_ending ++ c ∷ []), 1)
        else (c ∷ [], line_count + 1))
    else if not replace_crlf && (c == 10 || c == 13)
    then (c ∷ [], 0)
    else if q && c == 32
    then (b'_' ∷ [], line_count + 1)
    else if not q && leb 73 line_count
    then (b'=' ∷ (line_ending ++ escaped c), 3)
    else (escaped c, line_count + 3)

unfoldable pub encode_chars : Bytes → Bool → Bool → ℕ → Bytes → Bytes
encode_chars line_ending replace_crlf q line_count [] = []
encode_chars line_ending replace_crlf q line_count (c ∷ s) =
    let (text, line_count') = encode_char line_ending replace_crlf q line_count c in
    text ++ encode_chars line_ending replace_crlf q line_count' s

unfoldable pub quoted_printable_encode : Bytes → Bytes → Bool → Bool → Bytes
quoted_printable_encode input line_ending replace_crlf q =
    encode_chars line_ending replace_crlf q 0 input

-- The pattern =([0-9A-F]{2}|\r?\n), the first alternative first.
match_crlf : Bytes → Option (List Bytes × Bytes)
match_crlf (p ∷ a ∷ b ∷ s) =
    if (p == b'=') && (a == 13) && (b == 10)
    then some ((p ∷ a ∷ b ∷ []) ∷ (a ∷ b ∷ []) ∷ [], s)
    else none
match_crlf _ = none

match_break : Bytes → Option (List Bytes × Bytes)
unfolding match_crlf
match_break (p ∷ a ∷ s) =
    if (p == b'=') && (a == 10)
    then some ((p ∷ a ∷ []) ∷ (a ∷ []) ∷ [], s)
    else match_crlf (p ∷ a ∷ s)
match_break _ = none

unfoldable pub match_quoted : Matcher
unfolding match_break is_hex
match_quoted (p ∷ a ∷ b ∷ s) =
    if (p == b'=') && is_hex a && is_hex b
    then some ((p ∷ a ∷ b ∷ []) ∷ (a ∷ b ∷ []) ∷ [], s)
    else match_break (p ∷ a ∷ b ∷ s)
match_quoted s = match_break s

unfoldable pub replace_quoted : List Bytes → Bytes
unfolding replace_code
replace_quoted (whole ∷ m ∷ rest) =
    if beq m (13 ∷ 10 ∷ []) || beq m (10 ∷ []) then [] else replace_code (whole ∷ m ∷ rest)
replace_quoted _ = []

unfoldable pub quoted_printable_decode : Bytes → Bool → Bytes
quoted_printable_decode input q =
    let text = if q then replace_byte b'_' 32 input else input in
    regex_replace_callback match_quoted 1 replace_quoted text
