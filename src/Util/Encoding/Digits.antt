-- ===== src/Util/Encoding/Digits.antt =====
-- Hexadecimal digits: what is written is in the class of the patterns and is read back.
use nawa.Common.{ℕ, ◌+◌, ◌*◌, ◌/◌, ◌%◌, ◌<◌, ◌≡◌, refl, arith, true, [], ◌∷◌}
use nawa.Util.Strings.{hex_dump, hex_digit, to_upper, to_uppercase}
use nawa.Util.Encoding.{is_hex, hex_value, upper_digit, escaped}

pub upper_digit-is_hex : (d : ℕ) → d < 16 → is_hex (upper_digit d) ≡ true
unfolding is_hex upper_digit
upper_digit-is_hex d h = ground arith

pub hex_value-upper_digit : (d : ℕ) → d < 16 → hex_value (upper_digit d) ≡ d
unfolding hex_value upper_digit
hex_value-upper_digit d h = ground arith

pub digits-value :
    (c : ℕ) → c < 256 → hex_value (upper_digit (c / 16)) * 16 + hex_value (upper_digit (c % 16)) ≡ c
digits-value c h =
    let high = hex_value-upper_digit (c / 16) (omega arith) in
    let low = hex_value-upper_digit (c % 16) (omega arith) in omega (arith, high, low)

upper-hex_digit : (d : ℕ) → d < 16 → to_upper (hex_digit d) ≡ upper_digit d
unfolding to_upper hex_digit upper_digit
upper-hex_digit d h = ground arith

-- The uppercase of `hexDump` has the digits of `uppercase << hex`.
pub escaped_lem :
    (c : ℕ) → c < 256 → escaped c ≡ b'=' ∷ upper_digit (c / 16) ∷ upper_digit (c % 16) ∷ []
unfolding escaped hex_dump to_uppercase
escaped_lem c h =
    let high = upper-hex_digit (c / 16) (omega arith) in
    let low = upper-hex_digit (c % 16) (omega arith) in rw (high, low) refl
