-- ===== src/Util/Encoding/QuotedPrintable/Lines.antt =====
-- How long the lines of a quoted-printable text are.
use nawa.Common.{
  ℕ, ◌+◌, ◌/◌, ◌%◌, ◌<◌, ◌≤◌, ◌≡◌, refl, ap, ◌∙◌, Bool, true, false, not, [], ◌∷◌, ◌++◌,
  append_assoc, arith, inl, inr, leb, ltb, Bool-cases, if◌then◌else◌, ◌==◌, ◌&&◌, ◌||◌, All, Bytes,
}
use nawa.Util.Encoding.{
  upper_digit, is_literal, escaped, encode_char, encode_chars, quoted_printable_encode,
}
use nawa.Util.Encoding.Digits.{escaped_lem}
use nawa.Util.Encoding.Url.{IsByte}
use nawa.Util.Encoding.QuotedPrintable.{IsEnding}

-- Whether no line of a text that starts in a given column has more than `limit` characters.
unfoldable pub within : ℕ → ℕ → Bytes → Bool
within limit column [] = true
within limit column (c ∷ s) =
    let next = within limit 0 s in
    let same = within limit (column + 1) s in
    if c == 10 || c == 13 then next else ltb column limit && same

abbrev IsBelow : ℕ → Bytes × ℕ → Type 0
IsBelow n r = (r.1 ≤ 75) × ((s : Bytes) → within 76 n (r.0 ++ s) ≡ within 76 (r.1) s)

plain_char :
    (n c : ℕ) (s : Bytes)
    → n < 76
    → (c == 10 || c == 13) ≡ false
    → within 76 n (c ∷ s) ≡ within 76 (n + 1) s
unfolding within
plain_char n c s h p = let room : ltb n 76 ≡ true = ground arith in rw (p, room) refl

digit_visible : (d : ℕ) → d < 16 → (upper_digit d == 10 || upper_digit d == 13) ≡ false
unfolding upper_digit
digit_visible d h = ground arith

within-escaped :
    (n c : ℕ) (s : Bytes) → n < 74 → c < 256 → within 76 n (escaped c ++ s) ≡ within 76 (n + 3) s
within-escaped n c s h k =
    let high = digit_visible (c / 16) (omega arith) in
    let low = digit_visible (c % 16) (omega arith) in
    let sum : n + 1 + 1 + 1 ≡ n + 3 = omega arith in
    ap (λ t. within 76 n (t ++ s)) (escaped_lem c k)
    ∙ plain_char n b'=' _ (omega arith) refl
    ∙ plain_char (n + 1) (upper_digit (c / 16)) _ (omega arith) high
    ∙ plain_char (n + 1 + 1) (upper_digit (c % 16)) s (omega arith) low
    ∙ ap (λ m. within 76 m s) sum

within_break :
    (n : ℕ) (e s : Bytes) → n < 76 → IsEnding e → within 76 n (b'=' ∷ (e ++ s)) ≡ within 76 0 s
unfolding within
within_break n e s h (inl p) = let room : ltb n 76 ≡ true = ground arith in rw (p, room) refl
within_break n e s h (inr p) = let room : ltb n 76 ≡ true = ground arith in rw (p, room) refl

literal_visible : (c : ℕ) → is_literal false c ≡ true → (c == 10 || c == 13) ≡ false
unfolding is_literal
literal_visible c h = ground arith

encode_char-IsBelow :
    (e : Bytes) (r : Bool) (n c : ℕ)
    → IsEnding e
    → c < 256
    → n ≤ 75
    → IsBelow n (encode_char e r false n c)
unfolding encode_char
encode_char-IsBelow e r n c ending h k = elim (Bool-cases (is_literal false c)) [
  | inl plain ↦
      let visible = literal_visible c plain in
      elim (Bool-cases (leb 75 n)) [
        | inl full ↦
            rw (plain, full)
              (
                omega arith,
                λ s.
                    ap (λ t. within 76 n (b'=' ∷ t)) (append_assoc e (c ∷ []) s)
                    ∙ within_break n e (c ∷ s) (omega arith) ending
                    ∙ plain_char 0 c s (omega arith) visible,
              )
        | inr room ↦
            let small : n < 75 = ground arith in
            rw (plain, room) (omega arith, λ s. plain_char n c s (omega arith) visible)
      ]
  | inr special ↦ elim (Bool-cases (not r && (c == 10 || c == 13))) [
    | inl newline ↦
        let ends : (c == 10 || c == 13) ≡ true = ground arith in
        rw (special, newline) (omega arith, λ s. unfold within in rw ends refl)
    | inr coded ↦ elim (Bool-cases (leb 73 n)) [
      | inl full ↦
          rw (special, coded, full)
            (
              omega arith,
              λ s.
                  ap (λ t. within 76 n (b'=' ∷ t)) (append_assoc e (escaped c) s)
                  ∙ within_break n e (escaped c ++ s) (omega arith) ending
                  ∙ within-escaped 0 c s (omega arith) h,
            )
      | inr room ↦
          let small : n < 73 = ground arith in
          rw (special, coded, room) (omega arith, λ s. within-escaped n c s (omega arith) h)
    ]
  ]
]

within-encode_chars :
    (e : Bytes) (r : Bool) (n : ℕ) (s : Bytes)
    → IsEnding e
    → All IsByte s
    → n ≤ 75
    → within 76 n (encode_chars e r false n s) ≡ true
unfolding encode_chars
within-encode_chars e r n [] ending h k = unfold within in refl
within-encode_chars e r n (c ∷ s) ending h k =
    let (small, step) = encode_char-IsBelow e r n c ending h.0 k in
    let n' = (encode_char e r false n c).1 in
    step (encode_chars e r false n' s) ∙ within-encode_chars e r n' s ending h.1 small

-- For a text of bytes and a line ending LF or CRLF, no line of the quoted-printable encoding has more
-- than 76 characters, line ending apart, whether line breaks of the text are encoded or kept.
pub within-quoted_printable_encode :
    (s e : Bytes) (r : Bool)
    → All IsByte s
    → IsEnding e
    → within 76 0 (quoted_printable_encode s e r false) ≡ true
unfolding quoted_printable_encode
within-quoted_printable_encode s e r h ending = within-encode_chars e r 0 s ending h (omega arith)
