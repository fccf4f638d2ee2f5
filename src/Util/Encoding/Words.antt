-- ===== src/Util/Encoding/Words.antt =====
-- Base64, encoded words and the labels of a domain, of src/util/encoding.cpp. The coder of
-- libs/base64, and that of libs/punycode with the conversion from and to UTF-8, are parameters.
pub mod Laws
use nawa.Common.{
  ℕ, Bool, true, false, not, ◌&&◌, ◌||◌, List, [], ◌∷◌, ◌++◌, leb, ◌==◌, if◌then◌else◌, is_empty,
  Bytes, codes, drop, beq,
}
use nawa.Common.Result.{Result, ok, ◌>>=◌}
use nawa.Util.Strings.{split_string}
use nawa.Util.Replace.{string_replace}
use nawa.Util.MimeMultipart.{starts_with, span}
use nawa.Util.Encoding.{quoted_printable_encode}

-- The classes of the two patterns.
in_base64 : Bool → ℕ → Bool
in_base64 allow_whitespaces c =
    (leb b'A' c && leb c b'Z')
    || (leb b'a' c && leb c b'z')
    || (leb b'0' c && leb c b'9')
    || c == b'+'
    || c == b'/'
    || (allow_whitespaces && (c == 32 || c == 9 || c == 10 || c == 13))

-- One character of the class or more, and up to two equals signs behind them.
unfoldable pub is_base64 : Bytes → Bool → Bool
unfolding in_base64
is_base64 input allow_whitespaces =
    let (text, padding) = span (in_base64 allow_whitespaces) input in
    not (is_empty text) && (is_empty padding || beq padding (codes "=") || beq padding (codes "=="))

abbrev pub word_of : Bytes → Bytes → Bytes
word_of encoding text = codes "=?utf-8?" ++ encoding ++ text ++ codes "?="

unfoldable pub make_encoded_word : (Bytes → Bytes) → Bytes → Bool → Bool → Result Bytes
make_encoded_word base64_encode input base64 only_if_necessary =
    let qp_encoded = quoted_printable_encode input [] true true in
    if base64
    then ok (word_of (codes "B?") (base64_encode input))
    else if only_if_necessary
    then (string_replace ((32 ∷ [], b'_' ∷ []) ∷ []) input >>= λ marked.
        (if beq qp_encoded marked then ok input else ok (word_of (codes "Q?") qp_encoded)))
    else ok (word_of (codes "Q?") qp_encoded)

-- What has been written before each part but the first.
dot : Bool → Bytes
dot first_part = if first_part then [] else b'.' ∷ []

-- `encode` is the UTF-8 conversion, which may throw, and `punycode_encode` behind it.
encode_labels : (Bytes → Result Bytes) → Bool → List Bytes → Result Bytes
unfolding dot
encode_labels encode first_part [] = ok []
encode_labels encode first_part (part ∷ parts) = encode part >>= λ pret.
    (encode_labels encode false parts >>= λ rest.
    ok (dot first_part ++ (if beq pret part then [] else codes "xn--") ++ pret ++ rest))

unfoldable pub punycode_encode : (Bytes → Result Bytes) → Bytes → Result Bytes
unfolding encode_labels
punycode_encode encode input = encode_labels encode true (split_string input b'.' true)

-- `decode` is `punycode_decode` and the conversion to UTF-8 behind it, which may throw.
decode_label : (Bytes → Result Bytes) → Bytes → Result Bytes
decode_label decode part = if starts_with (codes "xn--") part then decode (drop 4 part) else ok part

decode_labels : (Bytes → Result Bytes) → Bool → List Bytes → Result Bytes
unfolding dot decode_label
decode_labels decode first_part [] = ok []
decode_labels decode first_part (part ∷ parts) = decode_label decode part >>= λ text.
    (decode_labels decode false parts >>= λ rest. ok (dot first_part ++ text ++ rest))

unfoldable pub punycode_decode : (Bytes → Result Bytes) → Bytes → Result Bytes
unfolding decode_labels
punycode_decode decode input = decode_labels decode true (split_string input b'.' true)
