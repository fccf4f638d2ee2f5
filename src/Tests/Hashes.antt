-- ===== src/Tests/Hashes.antt =====
-- Runs of the theorems on hashes of passwords.
use nawa.Common.{◌≡◌, refl, true, false, some, none, inr, arith, Bytes, codes, beq, if◌then◌else◌}
use nawa.Common.Result.{ok}
use nawa.Common.Number.{stoul}
use nawa.Util.MimeMultipart.{starts_with, span}
use nawa.Hashing.Argon2.{
  Argon2, Fields, argon2id, match_encoded, uint32, hash_part, usable, engine_of, generate_hash,
  verify_hash,
}
use nawa.Hashing.Argon2.Laws.{Matches, verify_hash-Matches}
use nawa.Mail.SmtpMailer.{after_last}

abbrev stored : Bytes
stored = codes "$argon2id$v=19$m=1,t=1,p=1$c2FsdHNhbHQ$eA"

-- A library that knows one password.
abbrev library : Argon2
library = record {
  hash_encoded = λ e input salt size. if beq input (codes "pw") then some stored else none;
  base64_decode = λ s. s;
  entropy_is_32 = true;
  random = λ i. i;
}

abbrev fields : Fields
fields = record {
  flavour = argon2id;
  version = codes "19";
  memory = codes "1";
  time = codes "1";
  lanes = codes "1";
  salt_text = codes "c2FsdHNhbHQ";
  hash_text = codes "eA";
}

pattern_matches : match_encoded stored ≡ some fields
unfolding match_encoded starts_with span
pattern_matches = refl

numbers : (uint32 (codes "19") ≡ ok 19) × (uint32 (codes "1") ≡ ok 1)
unfolding uint32 stoul
numbers = (refl, refl)

is_hashed : Matches library (codes "pw") stored
unfolding hash_part after_last beq
is_hashed =
    let (v, n) = numbers in
    (fields, 1, 1, 1, stored, pattern_matches, v, n, n, n, inr (refl, omega arith, refl), refl)

verify_hash-Matches_example : verify_hash library (codes "pw") stored ≡ true
verify_hash-Matches_example = (verify_hash-Matches library (codes "pw") stored).1 is_hashed

other_password : verify_hash library (codes "x") stored ≡ false
unfolding verify_hash usable engine_of generate_hash match_encoded uint32 starts_with span stoul beq
other_password = refl
