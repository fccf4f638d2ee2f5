-- ===== src/Util/Encoding/Words/Laws.antt =====
-- What an encoded word consists of.
use nawa.Common.{
  ℕ, zero, suc, ◌/◌, ◌%◌, ◌<◌, ◌≤◌, ◌≡◌, ◌⊎◌, refl, ap, subst, Bool, true, false, [], ◌∷◌, ◌++◌,
  arith, inl, inr, leb, Bool-cases, ◌==◌, ◌&&◌, All, All-append, Bytes, codes, beq, beq_iff, length,
}
use nawa.Common.Result.{ok}
use nawa.Util.Strings.{replace_byte}
use nawa.Util.MimeMultipart.{starts_with}
use nawa.Util.Replace.{replace_key, string_replace}
use nawa.Util.Encoding.{
  upper_digit, is_literal, escaped, encode_char, encode_chars, quoted_printable_encode,
  quoted_printable_decode,
}
use nawa.Util.Encoding.Digits.{escaped_lem}
use nawa.Util.Encoding.Url.{IsByte}
use nawa.Util.Encoding.QuotedPrintable.{decode-encode}
use nawa.Util.Encoding.Words.{word_of, make_encoded_word}

-- From the space to the tilde.
abbrev pub IsPrintable : ℕ → Type 0
IsPrintable c = (32 ≤ c) × (c ≤ 126)

upper_digit-IsPrintable : (d : ℕ) → d < 16 → IsPrintable (upper_digit d)
unfolding upper_digit
upper_digit-IsPrintable d h = (ground arith, ground arith)

literal-IsPrintable : (c : ℕ) → is_literal true c ≡ true → IsPrintable c
unfolding is_literal
literal-IsPrintable c h = (ground arith, ground arith)

escaped-IsPrintable : (c : ℕ) → IsByte c → All IsPrintable (escaped c)
escaped-IsPrintable c h =
    let high = upper_digit-IsPrintable (c / 16) (omega arith) in
    let low = upper_digit-IsPrintable (c % 16) (omega arith) in
    rw (escaped_lem c h) ((omega arith, omega arith), (high, (low, tt)))

encode_char-IsPrintable : (n c : ℕ) → IsByte c → All IsPrintable ((encode_char [] true true n c).0)
unfolding encode_char
encode_char-IsPrintable n c h = elim (Bool-cases (is_literal true c)) [
  | inl plain ↦ rw (plain) (literal-IsPrintable c plain, tt)
  | inr special ↦ elim (Bool-cases (c == 32)) [
    | inl space ↦ rw (special, space) ((omega arith, omega arith), tt)
    | inr other ↦ rw (special, other) (escaped-IsPrintable c h)
  ]
]

encode_chars-IsPrintable :
    (n : ℕ) (s : Bytes) → All IsByte s → All IsPrintable (encode_chars [] true true n s)
unfolding encode_chars
encode_chars-IsPrintable n [] h = tt
encode_chars-IsPrintable n (c ∷ s) (hc, hs) =
    All-append IsPrintable (encode_char [] true true n c).0 _ (encode_char-IsPrintable n c hc)
      (encode_chars-IsPrintable ((encode_char [] true true n c).1) s hs)

-- With enough fuel, the replacement of a single character by another is that in each place.
replace_key-replace_byte :
    (fuel a b : ℕ) (s : Bytes)
    → length s ≤ fuel
    → replace_key fuel (a ∷ []) (b ∷ []) s ≡ replace_byte a b s
unfolding replace_key replace_byte starts_with
replace_key-replace_byte zero a b [] h = refl
replace_key-replace_byte zero a b (c ∷ s) h = absurd (omega (arith, h))
replace_key-replace_byte (suc fuel) a b [] h = refl
replace_key-replace_byte (suc fuel) a b (c ∷ s) h =
    let rest = replace_key-replace_byte fuel a b s (omega (arith, h)) in
    elim (Bool-cases (c == a)) [
      | inl same ↦ let same' : (a == c) ≡ true = ground arith in rw (same, same', rest) refl
      | inr other ↦ let other' : (a == c) ≡ false = ground arith in rw (other, other', rest) refl
    ]

marked-IsPrintable : (s : Bytes) → All IsPrintable (replace_byte 32 b'_' s) → All IsPrintable s
unfolding replace_byte
marked-IsPrintable [] h = tt
marked-IsPrintable (c ∷ s) (hc, hs) = elim (Bool-cases (c == 32)) [
  | inl space ↦
      let p : c ≡ 32 = ground arith in ((omega arith, omega arith), marked-IsPrintable s hs)
  | inr other ↦ (rw other at hc, marked-IsPrintable s hs)
]

marked_lem :
    (s : Bytes) → string_replace ((32 ∷ [], b'_' ∷ []) ∷ []) s ≡ ok (replace_byte 32 b'_' s)
unfolding string_replace
marked_lem s = ap ok (replace_key-replace_byte (length s) 32 b'_' s (omega arith))

printable : Bytes → Bool
printable [] = true
printable (c ∷ s) = leb 32 c && leb c 126 && printable s

-- For texts that are written out.
printable-IsPrintable : (s : Bytes) → printable s ≡ true → All IsPrintable s
unfolding printable
printable-IsPrintable [] h = tt
printable-IsPrintable (c ∷ s) h =
    ((ground arith, ground arith), printable-IsPrintable s (ground arith))

encoded-IsPrintable :
    (input : Bytes)
    → All IsByte input
    → All IsPrintable (quoted_printable_encode input [] true true)
unfolding quoted_printable_encode
encoded-IsPrintable input h = encode_chars-IsPrintable 0 input h

-- A word that stands for a text.
abbrev pub IsWord : Bytes → Bytes → Type 0
IsWord input word =
    All IsPrintable word
    × ((word ≡ input)
        ⊎ ((text : Bytes) × (word ≡ word_of (codes "Q?") text)
            × (quoted_printable_decode text true ≡ input)))

word_of-IsWord :
    (input : Bytes)
    → All IsByte input
    → IsWord input (word_of (codes "Q?") (quoted_printable_encode input [] true true))
word_of-IsWord input h =
    let text = quoted_printable_encode input [] true true in
    let front = printable-IsPrintable (codes "=?utf-8?Q?") (unfold printable in refl) in
    let end = printable-IsPrintable (codes "?=") (unfold printable in refl) in
    let rest = All-append IsPrintable text (codes "?=") (encoded-IsPrintable input h) end in
    (
      All-append IsPrintable (codes "=?utf-8?Q?") (text ++ codes "?=") front rest,
      inr (text, refl, decode-encode input [] true true h (inl refl)),
    )

-- For a text of bytes `makeEncodedWord` returns, without base64, a word of printable ASCII
-- characters only: the text itself, or an encoded word from whose Q encoding the text is read back.
pub make_encoded_word-IsWord :
    (base64_encode : Bytes → Bytes) (input : Bytes) (only_if_necessary : Bool)
    → All IsByte input
    → (word : Bytes) × (make_encoded_word base64_encode input false only_if_necessary ≡ ok word)
      × IsWord input word
unfolding make_encoded_word
make_encoded_word-IsWord base64_encode input false h = (
  word_of (codes "Q?") (quoted_printable_encode input [] true true),
  refl,
  word_of-IsWord input h,
)
make_encoded_word-IsWord base64_encode input true h =
    let text = quoted_printable_encode input [] true true in
    elim (Bool-cases (beq text (replace_byte 32 b'_' input))) [
      | inr other ↦
          (word_of (codes "Q?") text, rw (marked_lem input, other) refl, word_of-IsWord input h)
      | inl same ↦ (
        input,
        rw (marked_lem input, same) refl,
        (
          let equal = (beq_iff text (replace_byte 32 b'_' input)).0 same in
              marked-IsPrintable input
                (subst (All IsPrintable) equal (encoded-IsPrintable input h)),
          inl refl,
        ),
      )
    ]
