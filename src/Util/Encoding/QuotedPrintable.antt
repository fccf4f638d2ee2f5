-- ===== src/Util/Encoding/QuotedPrintable.antt =====
-- Quoted-printable and Q encoding are undone by decoding.
pub mod Lines
use nawa.Common.{
  ℕ, suc, ◌+◌, ◌*◌, ◌/◌, ◌%◌, ◌<◌, ◌≡◌, ◌⊎◌, refl, ap, subst, ◌∙◌, Bool, true, false, not, List, [],
  ◌∷◌, ◌++◌, append_assoc, Option, none, some, arith, inl, inr, leb, ltb, Bool-cases, if◌then◌else◌,
  ◌==◌, ◌&&◌, ◌||◌, length, All, Bytes, beq,
}
use nawa.Util.Strings.{replace_byte}
use nawa.Util.Regex.{regex_replace_callback}
use nawa.Util.Regex.Laws.{regex_replace_callback_kept, regex_replace_callback_matched}
use nawa.Util.Encoding.{
  is_hex, hex_value, upper_digit, replace_code, is_literal, escaped, encode_char, encode_chars,
  quoted_printable_encode, match_crlf, match_break, match_quoted, replace_quoted,
  quoted_printable_decode,
}
use nawa.Util.Encoding.Digits.{upper_digit-is_hex, digits-value, escaped_lem}
use nawa.Util.Encoding.Url.{IsByte}

-- The two endings that the pattern knows.
abbrev pub IsEnding : Bytes → Type 0
IsEnding e = (e ≡ 13 ∷ 10 ∷ []) ⊎ (e ≡ 10 ∷ [])

shorter :
    (s : Bytes) (groups : List Bytes) (suffix : Bytes)
    → match_quoted s ≡ some (groups, suffix)
    → length suffix < length s
unfolding match_quoted
shorter [] groups suffix h = cc
shorter (p ∷ []) groups suffix h = cc
shorter (p ∷ a ∷ []) groups suffix h = ground arith
shorter (p ∷ a ∷ b ∷ s) groups suffix h = ground arith

all_marks :
    (s : Bytes) (groups : List Bytes) (suffix : Bytes)
    → match_quoted s ≡ some (groups, suffix)
    → length groups ≡ 2
unfolding match_quoted
all_marks [] groups suffix h = cc
all_marks (p ∷ []) groups suffix h = cc
all_marks (p ∷ a ∷ []) groups suffix h = ground arith
all_marks (p ∷ a ∷ b ∷ s) groups suffix h = ground arith

pub decode_text : Bytes → Bytes
decode_text s = regex_replace_callback match_quoted 1 replace_quoted s

match_quoted-none : (c : ℕ) (s : Bytes) → (c == b'=') ≡ false → match_quoted (c ∷ s) ≡ none
unfolding match_quoted
match_quoted-none c [] h = refl
match_quoted-none c (a ∷ []) h = rw h refl
match_quoted-none c (a ∷ b ∷ s) h = rw h refl

kept : (c : ℕ) (s : Bytes) → (c == b'=') ≡ false → decode_text (c ∷ s) ≡ c ∷ decode_text s
unfolding decode_text
kept c s h =
    regex_replace_callback_kept match_quoted 1 replace_quoted shorter all_marks c s
      (match_quoted-none c s h)

replace_digits :
    (p a b : ℕ)
    → is_hex a ≡ true
    → replace_quoted ((p ∷ a ∷ b ∷ []) ∷ (a ∷ b ∷ []) ∷ []) ≡ (hex_value a * 16 + hex_value b) ∷ []
unfolding replace_quoted is_hex beq
replace_digits p a b h = ground arith

digits :
    (a b : ℕ) (s : Bytes)
    → is_hex a ≡ true
    → is_hex b ≡ true
    → decode_text (b'=' ∷ a ∷ b ∷ s) ≡ (hex_value a * 16 + hex_value b) ∷ decode_text s
unfolding decode_text match_quoted
digits a b s h k =
    regex_replace_callback_matched match_quoted 1 replace_quoted shorter all_marks b'=' (a ∷ b ∷ s)
      ((b'=' ∷ a ∷ b ∷ []) ∷ (a ∷ b ∷ []) ∷ []) s (rw (h, k) refl)
    ∙ ap (λ t. t ++ regex_replace_callback match_quoted 1 replace_quoted s)
        (replace_digits b'=' a b h)

decoded : (c : ℕ) (s : Bytes) → c < 256 → decode_text (escaped c ++ s) ≡ c ∷ decode_text s
decoded c s h =
    let high = upper_digit-is_hex (c / 16) (omega arith) in
    let low = upper_digit-is_hex (c % 16) (omega arith) in
    ap (λ t. decode_text (t ++ s)) (escaped_lem c h)
    ∙ digits (upper_digit (c / 16)) (upper_digit (c % 16)) s high low
    ∙ ap (λ x. x ∷ decode_text s) (digits-value c h)

match_lf : (s : Bytes) → match_quoted (b'=' ∷ 10 ∷ s) ≡ some ((b'=' ∷ 10 ∷ []) ∷ (10 ∷ []) ∷ [], s)
unfolding match_quoted
match_lf [] = refl
match_lf (b ∷ s) = refl

lf_break : (s : Bytes) → decode_text (b'=' ∷ 10 ∷ s) ≡ decode_text s
unfolding decode_text replace_quoted beq
lf_break s =
    regex_replace_callback_matched match_quoted 1 replace_quoted shorter all_marks b'=' (10 ∷ s)
      ((b'=' ∷ 10 ∷ []) ∷ (10 ∷ []) ∷ []) s (match_lf s)

crlf_break : (s : Bytes) → decode_text (b'=' ∷ 13 ∷ 10 ∷ s) ≡ decode_text s
unfolding decode_text match_quoted replace_quoted beq
crlf_break s =
    regex_replace_callback_matched match_quoted 1 replace_quoted shorter all_marks b'='
      (13 ∷ 10 ∷ s) ((b'=' ∷ 13 ∷ 10 ∷ []) ∷ (13 ∷ 10 ∷ []) ∷ []) s refl

soft_break : (e s : Bytes) → IsEnding e → decode_text (b'=' ∷ (e ++ s)) ≡ decode_text s
soft_break e s (inl p) = ap (λ x. decode_text (b'=' ∷ (x ++ s))) p ∙ crlf_break s
soft_break e s (inr p) = ap (λ x. decode_text (b'=' ∷ (x ++ s))) p ∙ lf_break s

literal-equals : (q : Bool) (c : ℕ) → is_literal q c ≡ true → (c == b'=') ≡ false
unfolding is_literal
literal-equals q c h = ground arith

-- What one character adds is decoded to it, whatever follows.
decode-encode_char :
    (e : Bytes) (r : Bool) (n c : ℕ) (s : Bytes)
    → IsEnding e
    → c < 256
    → decode_text ((encode_char e r false n c).0 ++ s) ≡ c ∷ decode_text s
unfolding encode_char
decode-encode_char e r n c s ending h = elim (Bool-cases (is_literal false c)) [
  | inl plain ↦
      let k = kept c s (literal-equals false c plain) in
      elim (Bool-cases (leb 75 n)) [
        | inl full ↦
            rw (plain, full)
              (ap (λ t. decode_text (b'=' ∷ t)) (append_assoc e (c ∷ []) s)
                ∙ soft_break e (c ∷ s) ending
                ∙ k)
        | inr room ↦ rw (plain, room) k
      ]
  | inr special ↦ elim (Bool-cases (not r && (c == 10 || c == 13))) [
    | inl newline ↦ rw (special, newline) (kept c s (ground arith))
    | inr coded ↦ elim (Bool-cases (leb 73 n)) [
      | inl full ↦
          rw (special, coded, full)
            (ap (λ t. decode_text (b'=' ∷ t)) (append_assoc e (escaped c) s)
              ∙ soft_break e (escaped c ++ s) ending
              ∙ decoded c s h)
      | inr room ↦ rw (special, coded, room) (decoded c s h)
    ]
  ]
]

empty_text : decode_text [] ≡ []
unfolding decode_text regex_replace_callback
empty_text = refl

decode-encode_chars :
    (e : Bytes) (r : Bool) (n : ℕ) (s : Bytes)
    → IsEnding e
    → All IsByte s
    → decode_text (encode_chars e r false n s) ≡ s
unfolding encode_chars
decode-encode_chars e r n [] ending h = empty_text
decode-encode_chars e r n (c ∷ s) ending h =
    let n' = (encode_char e r false n c).1 in
    decode-encode_char e r n c (encode_chars e r false n' s) ending h.0
    ∙ ap (◌∷◌ c) (decode-encode_chars e r n' s ending h.1)

-- In Q encoding a space is an underscore, and decoding first turns underscores into spaces.
digit_plain : (d : ℕ) → d < 16 → (upper_digit d == b'_') ≡ false
unfolding upper_digit
digit_plain d h = ground arith

unmark-escaped :
    (c : ℕ) (s : Bytes)
    → c < 256
    → replace_byte b'_' 32 (escaped c ++ s) ≡ escaped c ++ replace_byte b'_' 32 s
unfolding replace_byte
unmark-escaped c s h =
    let high = digit_plain (c / 16) (omega arith) in
    let low = digit_plain (c % 16) (omega arith) in rw (escaped_lem c h) (rw (high, low) refl)

literal_plain : (c : ℕ) → is_literal true c ≡ true → (c == b'_') ≡ false
unfolding is_literal
literal_plain c h = ground arith

decode-encode_q :
    (e : Bytes) (r : Bool) (n c : ℕ) (s : Bytes)
    → c < 256
    → decode_text (replace_byte b'_' 32 ((encode_char e r true n c).0 ++ s))
      ≡ c ∷ decode_text (replace_byte b'_' 32 s)
unfolding encode_char replace_byte
decode-encode_q e r n c s h = elim (Bool-cases (is_literal true c)) [
  | inl plain ↦ rw (plain, literal_plain c plain) (kept c _ (literal-equals true c plain))
  | inr special ↦ elim (Bool-cases (not r && (c == 10 || c == 13))) [
    | inl newline ↦
        let same : (c == b'_') ≡ false = ground arith in
        rw (special, newline, same) (kept c _ (ground arith))
    | inr coded ↦ elim (Bool-cases (c == 32)) [
      | inl space ↦
          let p : c ≡ 32 = ground arith in
          rw (special, coded, space)
            (kept 32 _ refl ∙ ap (λ x. x ∷ decode_text (replace_byte b'_' 32 s)) (rw p refl))
      | inr other ↦
          rw (special, coded, other)
            (ap decode_text (unmark-escaped c s h) ∙ decoded c (replace_byte b'_' 32 s) h)
    ]
  ]
]

decode-encode_qs :
    (e : Bytes) (r : Bool) (n : ℕ) (s : Bytes)
    → All IsByte s
    → decode_text (replace_byte b'_' 32 (encode_chars e r true n s)) ≡ s
unfolding encode_chars
decode-encode_qs e r n [] h = unfold replace_byte in empty_text
decode-encode_qs e r n (c ∷ s) h =
    let n' = (encode_char e r true n c).1 in
    decode-encode_q e r n c (encode_chars e r true n' s) h.0
    ∙ ap (◌∷◌ c) (decode-encode_qs e r n' s h.1)

-- Every text of bytes is read back from its quoted-printable encoding, if the line ending is LF or
-- CRLF, and from its Q encoding with any line ending; line breaks may be encoded or not.
pub decode-encode :
    (s e : Bytes) (r q : Bool)
    → All IsByte s
    → (q ≡ true) ⊎ IsEnding e
    → quoted_printable_decode (quoted_printable_encode s e r q) q ≡ s
unfolding quoted_printable_decode quoted_printable_encode
decode-encode s e r true h _ = unfold decode_text in decode-encode_qs e r 0 s h
decode-encode s e r false h (inl p) = cc
decode-encode s e r false h (inr ending) =
    unfold decode_text in decode-encode_chars e r 0 s ending h
