-- ===== src/Util/Strings.antt =====
-- The string functions of src/util/utils.cpp. The laws are in the modules below.
pub mod Split
pub mod Paths
use nawa.Common.{
  ℕ, zero, suc, ◌+◌, ◌-◌, ◌/◌, ◌%◌, Bool, true, false, not, ◌&&◌, ◌||◌, List, [], ◌∷◌, ◌++◌, map,
  ltb, leb, ◌==◌, if◌then◌else◌, length, drop, Bytes, codes, is_empty, npos, find_first_of, substr,
}

-- The loop of `splitString`. Each round consumes a byte at least, so the text's length is fuel enough.
add_token : Bool → Bytes → List Bytes → List Bytes
add_token ignore_empty token ret =
    if not ignore_empty || not (is_empty token) then ret ++ token ∷ [] else ret

split_loop : ℕ → Bytes → ℕ → Bool → List Bytes → List Bytes
split_loop zero str delimiter ignore_empty ret = ret
split_loop (suc fuel) str delimiter ignore_empty ret =
    let pos = find_first_of delimiter str in
    let ret' = add_token ignore_empty (substr str 0 pos) ret in
    let rest = split_loop fuel (substr str (pos + 1) npos) delimiter ignore_empty ret' in
    if is_empty str then ret else if ltb pos (length str) then rest else ret'

unfoldable pub split_string : Bytes → ℕ → Bool → List Bytes
unfolding split_loop add_token substr find_first_of
split_string str delimiter ignore_empty = split_loop (length str) str delimiter ignore_empty []

-- `mergePath` writes a slash before each element.
slashed : List Bytes → Bytes
slashed [] = []
slashed (e ∷ path) = b'/' ∷ (e ++ slashed path)

unfoldable pub merge_path : List Bytes → Bytes
unfolding slashed
merge_path [] = b'/' ∷ []
merge_path (e ∷ path) = slashed (e ∷ path)

unfoldable pub split_path : Bytes → List Bytes
unfolding split_string
split_path path_string =
    let raw_path = substr path_string 0 (find_first_of b'?' path_string) in
    split_string raw_path b'/' true

-- `convertLineEndings`.
unfoldable pub convert_line_endings : Bytes → Bytes → Bytes
convert_line_endings [] ending = []
convert_line_endings (c ∷ s) ending =
    let rest = convert_line_endings s ending in
    if c == 10 then ending ++ rest else if c == 13 then rest else c ∷ rest

-- `::tolower` and `::toupper` in the C locale.
unfoldable pub to_lower : ℕ → ℕ
to_lower c = if leb b'A' c && leb c b'Z' then c + 32 else c

unfoldable pub to_upper : ℕ → ℕ
to_upper c = if leb b'a' c && leb c b'z' then c - 32 else c

unfoldable pub to_lowercase : Bytes → Bytes
unfolding to_lower
to_lowercase s = map to_lower s

unfoldable pub to_uppercase : Bytes → Bytes
unfolding to_upper
to_uppercase s = map to_upper s

-- `find_last_of(c) + 1` in size_t: 0 if the byte is absent, since npos + 1 wraps around.
last_end : ℕ → Bytes → ℕ → ℕ → ℕ
last_end c [] i found = found
last_end c (x ∷ s) i found = last_end c s (i + 1) (if x == c then i + 1 else found)

unfoldable pub get_file_extension : Bytes → Bytes
unfolding last_end substr
get_file_extension filename = substr filename (last_end b'.' filename 0 0) npos

-- `stringReplace` with a map of single bytes.
unfoldable pub replace_byte : ℕ → ℕ → Bytes → Bytes
replace_byte from to [] = []
replace_byte from to (c ∷ s) = (if c == from then to else c) ∷ replace_byte from to s

-- `hexDump`: two lowercase digits for each byte.
unfoldable pub hex_digit : ℕ → ℕ
hex_digit d = if ltb d 10 then b'0' + d else b'a' + (d - 10)

unfoldable pub hex_dump : Bytes → Bytes
unfolding hex_digit
hex_dump [] = []
hex_dump (c ∷ s) = hex_digit (c / 16) ∷ hex_digit (c % 16) ∷ hex_dump s
