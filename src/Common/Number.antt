-- ===== src/Common/Number.antt =====
-- Machine integers, their decimal texts, and `std::stoul` and `std::to_string` on them.
use Prim.Native.Nat.{ℕ, zero, suc, ◌+◌, ◌-◌, ◌*◌, ◌/◌, ◌%◌, ◌^◌, ◌<◌}
use mathlib.Core.Bool.{Bool, true, false, ◌&&◌, ◌||◌}
use mathlib.Core.List.{[], ◌∷◌}
use mathlib.Core.Logic.{inl, inr}
use mathlib.Core.Path.{◌≡◌, refl, ap, subst, ◌∙◌}
use native.Mathlib.Omega.{arith}
use native.Mathlib.Nat.{pow-suc}
use nawa.Common.Tests.{ltb, leb, ◌==◌, if◌then◌else◌, Bool-cases}
use nawa.Common.Text.{Bytes}
use nawa.Common.Result.{Result, ok, err, invalid_argument, out_of_range}

-- The values of `unsigned long` and `size_t`, and the bit patterns of `time_t`.
abbrev pub u64 : ℕ
u64 = 2 ^ 64

-- `a <= b` and `a < b` on `time_t` values given by their bit patterns: two's complement.
abbrev pub time_le : ℕ → ℕ → Bool
time_le a b = leb ((a + 2 ^ 63) % u64) ((b + 2 ^ 63) % u64)

abbrev pub time_lt : ℕ → ℕ → Bool
time_lt a b = ltb ((a + 2 ^ 63) % u64) ((b + 2 ^ 63) % u64)

-- `time_t + unsigned long`, computed in `unsigned long` and stored in a `time_t`.
abbrev pub add_time : ℕ → ℕ → ℕ
add_time t d = (t + d) % u64

abbrev pub is_digit : ℕ → Bool
is_digit c = leb b'0' c && leb c b'9'

abbrev is_space : ℕ → Bool
is_space c = c == 32 || (leb 9 c && leb c 13)

skip_space : Bytes → Bytes
skip_space [] = []
skip_space (c ∷ s) = let rest = skip_space s in if is_space c then rest else c ∷ s

-- The number that the leading digits spell behind `n`.
pub scan_digits : Bytes → ℕ → ℕ
scan_digits [] n = n
scan_digits (c ∷ s) n =
    let rest = scan_digits s (n * 10 + (c - b'0')) in if is_digit c then rest else n

-- The digits behind the sign: there must be one, and the number must be below the bound.
magnitude : ℕ → Bytes → Result ℕ
unfolding scan_digits
magnitude bound [] = err invalid_argument
magnitude bound (c ∷ s) =
    let v = scan_digits (c ∷ s) 0 in
    if is_digit c then (if ltb v bound then ok v else err out_of_range) else err invalid_argument

negate : Result ℕ → Result ℕ
negate (ok v) = ok ((u64 - v) % u64)
negate (err e) = err e

unsigned : Bytes → Result ℕ
unfolding magnitude negate
unsigned [] = err invalid_argument
unsigned (c ∷ s) =
    if c == b'-'
    then negate (magnitude u64 s)
    else if c == b'+'
    then magnitude u64 s
    else magnitude u64 (c ∷ s)

signed : Bytes → Result ℕ
unfolding magnitude negate
signed [] = err invalid_argument
signed (c ∷ s) =
    if c == b'-'
    then negate (magnitude (2 ^ 63 + 1) s)
    else if c == b'+'
    then magnitude (2 ^ 63) s
    else magnitude (2 ^ 63) (c ∷ s)

-- `std::stoul(s)`: leading space, an optional sign, then decimal digits; the rest is ignored.
unfoldable pub stoul : Bytes → Result ℕ
unfolding skip_space unsigned
stoul s = unsigned (skip_space s)

-- `std::stol(s)`, as the bit pattern of the `long`.
unfoldable pub stol : Bytes → Result ℕ
unfolding skip_space signed
stol s = signed (skip_space s)

-- `std::to_string` of an unsigned number, with one unit of fuel for each digit that it can have.
decimal : ℕ → ℕ → Bytes → Bytes
decimal zero n out = out
decimal (suc fuel) n out =
    let rest = decimal fuel (n / 10) ((b'0' + n % 10) ∷ out) in
    if ltb n 10 then (b'0' + n) ∷ out else rest

unfoldable pub to_string : ℕ → Bytes
unfolding decimal
to_string n = decimal 20 n []

-- One more digit is read behind a number.
scan_digit :
    (d n m : ℕ) (out : Bytes)
    → d < 10
    → m ≡ n * 10 + d
    → scan_digits ((b'0' + d) ∷ out) n ≡ scan_digits out m
unfolding scan_digits
scan_digit d n m out h e = ground arith

-- The digits that are written spell the number, and reading goes on behind them.
scan-decimal :
    (fuel n : ℕ) (out : Bytes)
    → n < 10 ^ fuel
    → 0 < fuel
    → scan_digits (decimal fuel n out) 0 ≡ scan_digits out n
unfolding decimal
scan-decimal zero n out h p = absurd (omega arith)
scan-decimal (suc zero) n out h p = elim (Bool-cases (ltb n 10)) [
  | inl small ↦ rw small (scan_digit n 0 n out (ground arith) (omega arith))
  | inr large ↦ absurd (ground arith)
]
scan-decimal (suc (suc fuel)) n out h p = elim (Bool-cases (ltb n 10)) [
  | inl small ↦ rw small (scan_digit n 0 n out (ground arith) (omega arith))
  | inr large ↦ rw large (
      scan-decimal (suc fuel) (n / 10) ((b'0' + n % 10) ∷ out)
        (omega (arith, pow-suc 10 (suc fuel))) (omega arith)
      ∙ scan_digit (n % 10) (n / 10) n out (omega arith) (omega arith))
]

abbrev DigitFirst : Bytes → Type 0
DigitFirst s = (c : ℕ) × (t : Bytes) × (s ≡ c ∷ t) × (is_digit c ≡ true)

decimal-DigitFirst : (fuel n : ℕ) (out : Bytes) → DigitFirst out → DigitFirst (decimal fuel n out)
unfolding decimal
decimal-DigitFirst zero n out h = h
decimal-DigitFirst (suc fuel) n out h = elim (Bool-cases (ltb n 10)) [
  | inl small ↦ rw small (b'0' + n, out, refl, ground arith)
  | inr large ↦ rw large (
      decimal-DigitFirst fuel (n / 10) ((b'0' + n % 10) ∷ out)
        (b'0' + n % 10, out, refl, ground arith))
]

to_string-DigitFirst : (n : ℕ) → DigitFirst (to_string n)
unfolding to_string
to_string-DigitFirst n = elim (Bool-cases (ltb n 10)) [
  | inl small ↦ rw small (b'0' + n, [], refl, ground arith)
  | inr large ↦ rw large (
      decimal-DigitFirst 19 (n / 10) ((b'0' + n % 10) ∷ []) (b'0' + n % 10, [], refl, ground arith))
]

scan-to_string : (n : ℕ) → n < u64 → scan_digits (to_string n) 0 ≡ n
unfolding to_string scan_digits
scan-to_string n h = scan-decimal 20 n [] (omega arith) (omega arith)

stoul_digits :
    (c : ℕ) (t : Bytes)
    → is_digit c ≡ true
    → scan_digits (c ∷ t) 0 < u64
    → stoul (c ∷ t) ≡ ok (scan_digits (c ∷ t) 0)
unfolding stoul
stoul_digits c t d h =
    let in_range : ltb (scan_digits t (0 * 10 + (c - b'0'))) u64 ≡ true = ground arith in
    let solid : is_space c ≡ false = ground arith in
    let no_minus : (c == b'-') ≡ false = ground arith in
    let no_plus : (c == b'+') ≡ false = ground arith in
    rw (solid, no_minus, no_plus, d, in_range) refl

-- The decimal text of a 64-bit number is read back as that number.
pub stoul-to_string : (n : ℕ) → n < u64 → stoul (to_string n) ≡ ok n
stoul-to_string n h =
    let (c, t, e, d) = to_string-DigitFirst n in
    let value : scan_digits (c ∷ t) 0 ≡ n =
      subst (λ s. scan_digits s 0 ≡ n) e (scan-to_string n h) in
    ap stoul e ∙ stoul_digits c t d (rw value h) ∙ ap ok value
