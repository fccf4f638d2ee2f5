-- ===== src/Hashing/Argon2.antt =====
-- src/hashing/HashingEngine/impl/Argon2HashingEngine.cpp. The functions of libargon2 and the decoder
-- of libs/base64 are parameters.
pub mod Laws
use Prim.Native.Nat.{bit_or, bit_xor}
use nawa.Common.{
  ℕ, zero, suc, ◌+◌, ◌*◌, ◌/◌, ◌%◌, ◌^◌, Bool, true, false, not, ◌&&◌, ◌||◌, List, [], ◌∷◌, ◌++◌,
  Option, none, some, ltb, leb, ◌==◌, if◌then◌else◌, length, drop, is_empty, Bytes, codes, beq,
}
use nawa.Common.Result.{Result, ok, err, ◌>>=◌, exception}
use nawa.Common.Number.{u64, is_digit, stoul}
use nawa.Util.MimeMultipart.{starts_with, span}
use nawa.Mail.SmtpMailer.{after_last}

pub data Algorithm : Type 0 where
  argon2i argon2d argon2id : Algorithm

pub record Argon2HashingEngine : Type 0 where
  pub algorithm : Algorithm
  pub time_cost : ℕ
  pub memory_cost : ℕ
  pub parallelism : ℕ
  pub salt : Bytes
  pub hash_len : ℕ

-- `argon2i_hash_encoded` and its siblings, by the engine's fields, the input, the salt and the size
-- of the buffer; the decoder; and the random device: whether its entropy is 32, and its numbers.
pub record Argon2 : Type 0 where
  pub hash_encoded : Argon2HashingEngine → Bytes → Bytes → ℕ → Option Bytes
  pub base64_decode : Bytes → Bytes
  pub entropy_is_32 : Bool
  pub random : ℕ → ℕ

-- The lowest bytes of a number, the lowest first.
low_bytes : ℕ → ℕ → Bytes
low_bytes zero val = []
low_bytes (suc n) val = (val % 256) ∷ low_bytes n (val / 256)

-- `count` numbers from a position on, with `n` bytes of each.
draw_bytes : (ℕ → ℕ) → ℕ → ℕ → ℕ → Bytes
unfolding low_bytes
draw_bytes random n i zero = []
draw_bytes random n i (suc count) = low_bytes n (random i) ++ draw_bytes random n (i + 1) count

unfoldable pub random_salt : Argon2 → Bytes
unfolding draw_bytes
random_salt c = if c.entropy_is_32 then draw_bytes c.random 4 0 4 else draw_bytes c.random 2 0 8

-- `ARGON2_MIN_SALT_LENGTH` is 8.
unfoldable pub generate_hash : Argon2 → Argon2HashingEngine → Bytes → Result Bytes
generate_hash c e input =
    let salt = if is_empty e.salt then random_salt c else e.salt in
    let size = (50 + (length salt * 4) / 3 + (e.hash_len * 4) / 3) % u64 in
    if not (is_empty e.salt) && ltb (length e.salt) 8
    then err (exception 10)
    else elim (c.hash_encoded e input salt size) [ none ↦ err (exception 10) | some hash ↦ ok hash ]

-- What the pattern captures.
pub record Fields : Type 0 where
  pub flavour : Algorithm
  pub version : Bytes
  pub memory : Bytes
  pub time : Bytes
  pub lanes : Bytes
  pub salt_text : Bytes
  pub hash_text : Bytes

then_do {ℓ κ} : {A : Type ℓ} {B : Type κ} → Option A → (A → Option B) → Option B
then_do none f = none
then_do (some a) f = f a

literal : Bytes → Bytes → Option Bytes
literal t s = if starts_with t s then some (drop (length t) s) else none

-- A class under a plus.
one_or_more : Bytes × Bytes → Option (Bytes × Bytes)
one_or_more ([], rest) = none
one_or_more (c ∷ head, rest) = some (c ∷ head, rest)

number : Bytes → Option (Bytes × Bytes)
unfolding one_or_more
number s = one_or_more (span is_digit s)

is_base64_char : ℕ → Bool
is_base64_char c =
    (leb b'A' c && leb c b'Z') || (leb b'a' c && leb c b'z') || is_digit c || c == b'+' || c == b'/'

-- Up to two equals signs.
padding : ℕ → Bytes → Bytes × Bytes
padding zero s = ([], s)
padding (suc n) [] = ([], [])
padding (suc n) (c ∷ s) =
    let (more, rest) = padding n s in if c == b'=' then (c ∷ more, rest) else ([], c ∷ s)

base64_text : Bytes → Option (Bytes × Bytes)
unfolding then_do one_or_more is_base64_char padding
base64_text s =
    then_do (one_or_more (span is_base64_char s))
      (λ (head, rest). (let (equals, behind) = padding 2 rest in some (head ++ equals, behind)))

-- (i|d|id) with the dollar sign behind it.
flavour_of : Bytes → Option (Algorithm × Bytes)
unfolding literal
flavour_of s = elim (literal (codes "i$") s) [
  | some rest ↦ some (argon2i, rest)
  | none ↦ elim (literal (codes "d$") s) [
    | some rest ↦ some (argon2d, rest)
    | none ↦ elim (literal (codes "id$") s) [ some rest ↦ some (argon2id, rest) | none ↦ none ]
  ]
]

-- (v=([0-9]+))?
version_of : Bytes → Bytes × Bytes
unfolding then_do literal number
version_of s = elim (then_do (literal (codes "v=") s) number) [ some r ↦ r | none ↦ ([], s) ]

-- The pattern, on the whole text.
unfoldable pub match_encoded : Bytes → Option Fields
unfolding then_do literal number base64_text flavour_of version_of
match_encoded hash = then_do (literal (codes "$argon2") hash) (λ s0.
    then_do (flavour_of s0) (λ (flavour, s1).
      (let (version, s2) = version_of s1 in
        then_do (literal (codes "$m=") s2) (λ s3. then_do (number s3) (λ (memory, s4).
          then_do (literal (codes ",t=") s4) (λ s5. then_do (number s5) (λ (time, s6).
            then_do (literal (codes ",p=") s6) (λ s7. then_do (number s7) (λ (lanes, s8).
              then_do (literal (codes "$") s8) (λ s9. then_do (base64_text s9) (λ (salt, s10).
                then_do (literal (codes "$") s10) (λ s11.
                  then_do (base64_text s11) (λ (hash_text, rest).
                    if is_empty rest
                    then some (record {
                      flavour = flavour;
                      version = version;
                      memory = memory;
                      time = time;
                      lanes = lanes;
                      salt_text = salt;
                      hash_text = hash_text;
                    })
                    else none)))))))))))))

-- A number as a `uint32_t`.
unfoldable pub uint32 : Bytes → Result ℕ
uint32 s = stoul s >>= λ n. ok (n % 2 ^ 32)

-- The engine that the hash has been made with, its version, and the hash itself.
unfoldable pub engine_of : Argon2 → Fields → Result (ℕ × Argon2HashingEngine × Bytes)
unfolding uint32
engine_of c f = uint32 f.version >>= λ version.
    (uint32 f.memory >>= λ memory.
    (uint32 f.time >>= λ time.
    (uint32 f.lanes >>= λ lanes.
    (let stored = c.base64_decode f.hash_text in
      ok (
        version,
        record {
          algorithm = f.flavour;
          time_cost = time;
          memory_cost = memory;
          parallelism = lanes;
          salt = c.base64_decode f.salt_text;
          hash_len = length stored;
        },
        stored,
      )))))

-- `ret |= u1[i] ^ u2[i]` over the bytes.
unfoldable pub differences : ℕ → Bytes → Bytes → ℕ
differences ret [] u2 = ret
differences ret (x ∷ u1) [] = ret
differences ret (x ∷ u1) (y ∷ u2) = differences (bit_or ret (bit_xor x y)) u1 u2

unfoldable pub same_bytes : Bytes → Bytes → Bool
same_bytes hash1 input_hash =
    if not (length hash1 == length input_hash) then false else differences 0 hash1 input_hash == 0

-- What follows the last dollar sign, or the whole text.
unfoldable pub hash_part : Bytes → Bytes
hash_part s = elim (after_last b'$' s) [ some t ↦ t | none ↦ s ]

-- The fields as an engine, or none where `verifyHash` returns early.
unfoldable pub usable : Argon2 → Bytes → Option (Argon2HashingEngine × Bytes)
usable c hash = elim (match_encoded hash) [
  | none ↦ none
  | some f ↦ elim (engine_of c f) [
    | err e ↦ none
    | ok (version, engine, stored) ↦ if version == 19 then some (engine, stored) else none
  ]
]

unfoldable pub verify_hash : Argon2 → Bytes → Bytes → Bool
verify_hash c input hash = elim (usable c hash) [
  | none ↦ false
  | some (engine, stored) ↦ elim (generate_hash c engine input) [
    | err e ↦ false
    | ok text ↦ same_bytes stored (c.base64_decode (hash_part text))
  ]
]
