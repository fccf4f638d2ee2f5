-- ===== src/Tests/Encodings.antt =====
-- Runs of the theorems on replacement and encodings.
use nawa.Common.{
  ◌<◌, ◌≡◌, refl, true, false, List, [], ◌∷◌, some, none, inl, inr, arith, All, length,
  if◌then◌else◌, ◌==◌, Bytes, codes,
}
use nawa.Util.Regex.{Matcher, regex_replace_callback}
use nawa.Util.Regex.Laws.{replace, regex_replace_callback-replace}
use nawa.Util.Encoding.{url_encode, url_decode, quoted_printable_encode, quoted_printable_decode}
use nawa.Util.Encoding.Url.{IsByte, url_decode-url_encode}
use nawa.Common.Result.{ok}
use nawa.Util.Encoding.Words.{make_encoded_word}
use nawa.Util.Encoding.Words.Laws.{IsWord, make_encoded_word-IsWord}
use nawa.Util.Encoding.QuotedPrintable.{decode-encode}
use nawa.Util.Encoding.QuotedPrintable.Lines.{within, within-quoted_printable_encode}

-- Bytes over 31, a space, a percent sign, and a byte that is not ASCII.
abbrev sample : Bytes
sample = 97 ∷ 32 ∷ 37 ∷ 228 ∷ []

sample_bytes : All IsByte sample
sample_bytes = (omega arith, (omega arith, (omega arith, (omega arith, tt))))

url_decode-url_encode_example : url_decode (url_encode sample) ≡ sample
url_decode-url_encode_example = url_decode-url_encode sample sample_bytes

decode-encode_example :
    quoted_printable_decode (quoted_printable_encode sample (10 ∷ []) true false) false ≡ sample
decode-encode_example = decode-encode sample (10 ∷ []) true false sample_bytes (inr (inr refl))

within-quoted_printable_encode_example :
    within 76 0 (quoted_printable_encode sample (13 ∷ 10 ∷ []) true false) ≡ true
within-quoted_printable_encode_example =
    within-quoted_printable_encode sample (13 ∷ 10 ∷ []) true sample_bytes (inl refl)

make_encoded_word-IsWord_example :
    (word : Bytes) × (make_encoded_word (λ s. s) sample false true ≡ ok word) × IsWord sample word
make_encoded_word-IsWord_example = make_encoded_word-IsWord (λ s. s) sample true sample_bytes

-- The pattern x, with no group.
match_x : Matcher
match_x [] = none
match_x (c ∷ s) = if c == b'x' then some ((c ∷ []) ∷ [], s) else none

match_x-shorter :
    (s : Bytes) (groups : List Bytes) (suffix : Bytes)
    → match_x s ≡ some (groups, suffix)
    → length suffix < length s
unfolding match_x
match_x-shorter [] groups suffix h = cc
match_x-shorter (c ∷ s) groups suffix h = ground arith

match_x-length :
    (s : Bytes) (groups : List Bytes) (suffix : Bytes)
    → match_x s ≡ some (groups, suffix)
    → length groups ≡ 1
unfolding match_x
match_x-length [] groups suffix h = cc
match_x-length (c ∷ s) groups suffix h = ground arith

abbrev dash : List Bytes → Bytes
dash groups = codes "-"

regex_replace_callback-replace_example :
    regex_replace_callback match_x 0 dash (codes "axbx") ≡ replace match_x 0 dash 4 (codes "axbx")
regex_replace_callback-replace_example =
    regex_replace_callback-replace match_x 0 dash match_x-shorter match_x-length (codes "axbx")
