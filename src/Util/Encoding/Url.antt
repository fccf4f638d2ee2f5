-- ===== src/Util/Encoding/Url.antt =====
-- URL encoding is undone by decoding.
use nawa.Common.{
  ℕ, ◌+◌, ◌*◌, ◌/◌, ◌%◌, ◌<◌, ◌≡◌, refl, ap, ◌∙◌, true, false, List, [], ◌∷◌, none, some, arith,
  inl, inr, Bool-cases, ◌==◌, length, All, Bytes,
}
use nawa.Util.Regex.{regex_replace_callback}
use nawa.Util.Regex.Laws.{regex_replace_callback_kept, regex_replace_callback_matched}
use nawa.Util.Encoding.{
  is_unreserved, is_hex, hex_value, upper_digit, url_encode, url_decode, match_code, replace_code,
}
use nawa.Util.Encoding.Digits.{upper_digit-is_hex, digits-value}

abbrev pub IsByte : ℕ → Type 0
IsByte c = c < 256

shorter :
    (s : Bytes) (groups : List Bytes) (suffix : Bytes)
    → match_code s ≡ some (groups, suffix)
    → length suffix < length s
unfolding match_code
shorter [] groups suffix h = cc
shorter (p ∷ []) groups suffix h = cc
shorter (p ∷ a ∷ []) groups suffix h = cc
shorter (p ∷ a ∷ b ∷ s) groups suffix h = ground arith

all_marks :
    (s : Bytes) (groups : List Bytes) (suffix : Bytes)
    → match_code s ≡ some (groups, suffix)
    → length groups ≡ 2
unfolding match_code
all_marks [] groups suffix h = cc
all_marks (p ∷ []) groups suffix h = cc
all_marks (p ∷ a ∷ []) groups suffix h = cc
all_marks (p ∷ a ∷ b ∷ s) groups suffix h = ground arith

match_code-none : (c : ℕ) (s : Bytes) → (c == b'%') ≡ false → match_code (c ∷ s) ≡ none
unfolding match_code
match_code-none c [] h = refl
match_code-none c (a ∷ []) h = refl
match_code-none c (a ∷ b ∷ s) h = rw h refl

kept : (c : ℕ) (s : Bytes) → (c == b'%') ≡ false → url_decode (c ∷ s) ≡ c ∷ url_decode s
unfolding url_decode
kept c s h =
    regex_replace_callback_kept match_code 1 replace_code shorter all_marks c s
      (match_code-none c s h)

decoded :
    (a b : ℕ) (s : Bytes)
    → is_hex a ≡ true
    → is_hex b ≡ true
    → url_decode (b'%' ∷ a ∷ b ∷ s) ≡ (hex_value a * 16 + hex_value b) ∷ url_decode s
unfolding url_decode replace_code match_code
decoded a b s h k =
    regex_replace_callback_matched match_code 1 replace_code shorter all_marks b'%' (a ∷ b ∷ s)
      ((b'%' ∷ a ∷ b ∷ []) ∷ (a ∷ b ∷ []) ∷ []) s (rw (h, k) refl)

unreserved-percent : (c : ℕ) → is_unreserved c ≡ true → (c == b'%') ≡ false
unfolding is_unreserved
unreserved-percent c h = ground arith

nothing : url_decode [] ≡ []
unfolding url_decode regex_replace_callback
nothing = refl

-- Every text of bytes is read back from its URL encoding.
pub url_decode-url_encode : (s : Bytes) → All IsByte s → url_decode (url_encode s) ≡ s
unfolding url_encode
url_decode-url_encode [] h = nothing
url_decode-url_encode (c ∷ s) h = elim (Bool-cases (is_unreserved c)) [
  | inl free ↦
      rw (free, url_encode)
        (kept c (url_encode s) (unreserved-percent c free)
          ∙ ap (◌∷◌ c) (url_decode-url_encode s h.1))
  | inr coded ↦
      let high = upper_digit-is_hex (c / 16) (omega (arith, h.0)) in
      let low = upper_digit-is_hex (c % 16) (omega arith) in
      rw (coded, url_encode)
        (decoded (upper_digit (c / 16)) (upper_digit (c % 16)) (url_encode s) high low
          ∙ ap (λ x. x ∷ url_decode (url_encode s)) (digits-value c h.0)
          ∙ ap (◌∷◌ c) (url_decode-url_encode s h.1))
]
