-- ===== src/Hashing/Crypto.antt =====
-- src/util/crypto.cpp and the table of src/hashing/HashTypeTable/impl/DefaultHashTypeTable.cpp. The
-- digests of OpenSSL are parameters.
use nawa.Common.{
  Bool, ◌||◌, [], Option, none, some, if◌then◌else◌, is_empty, Bytes, codes, beq, substr,
}
use nawa.Common.Result.{Result, ok, err, exception}
use nawa.Util.Strings.{hex_dump}
use nawa.Hashing.Argon2.{Argon2, Argon2HashingEngine, argon2id, generate_hash, verify_hash}
use nawa.Hashing.Bcrypt.{Bcrypt, BcryptHashingEngine, generate_bcrypt, verify_bcrypt}

-- `SHA1` and the others, whose results are the bytes of the digest.
pub record Digests : Type 0 where
  pub sha1_digest : Bytes → Bytes
  pub sha224_digest : Bytes → Bytes
  pub sha256_digest : Bytes → Bytes
  pub sha384_digest : Bytes → Bytes
  pub sha512_digest : Bytes → Bytes
  pub md5_digest : Bytes → Bytes

abbrev hex_if : Bool → Bytes → Bytes
hex_if hex digest = if hex then hex_dump digest else digest

module _ (d : Digests) where
  unfoldable pub sha1 : Bytes → Bool → Bytes
  sha1 input hex = hex_if hex (d.sha1_digest input)

  unfoldable pub sha224 : Bytes → Bool → Bytes
  sha224 input hex = hex_if hex (d.sha224_digest input)

  unfoldable pub sha256 : Bytes → Bool → Bytes
  sha256 input hex = hex_if hex (d.sha256_digest input)

  unfoldable pub sha384 : Bytes → Bool → Bytes
  sha384 input hex = hex_if hex (d.sha384_digest input)

  unfoldable pub sha512 : Bytes → Bool → Bytes
  sha512 input hex = hex_if hex (d.sha512_digest input)

  unfoldable pub md5 : Bytes → Bool → Bytes
  md5 input hex = hex_if hex (d.md5_digest input)

-- An engine by its two virtual functions.
pub record HashingEngine : Type 0 where
  pub generate : Bytes → Result Bytes
  pub verify : Bytes → Bytes → Bool

module _ (bcrypt : Bcrypt) (argon2 : Argon2) where
  abbrev pub bcrypt_engine : BcryptHashingEngine → HashingEngine
  bcrypt_engine e = record { generate = generate_bcrypt bcrypt e; verify = verify_bcrypt bcrypt }

  abbrev pub argon2_engine : Argon2HashingEngine → HashingEngine
  argon2_engine e = record { generate = generate_hash argon2 e; verify = verify_hash argon2 }

  -- Verification does not use the fields, which the default arguments of the constructors fill.
  unfoldable pub get_engine : Bytes → Option HashingEngine
  get_engine hash =
      let hid = substr hash 0 4 in
      if beq hid (codes "$2a$")
        || beq hid (codes "$2b$")
        || beq hid (codes "$2x$")
        || beq hid (codes "$2y$")
      then some (bcrypt_engine (record { work_factor = 10; salt = [] }))
      else if beq (substr hash 0 10) (codes "$argon2id$")
          || beq (substr hash 0 9) (codes "$argon2i$")
          || beq (substr hash 0 9) (codes "$argon2d$")
      then some (
          argon2_engine (record {
            algorithm = argon2id;
            time_cost = 2;
            memory_cost = 65536;
            parallelism = 1;
            salt = [];
            hash_len = 32;
          }))
      else none

unfoldable pub password_hash : Bytes → HashingEngine → Result Bytes
password_hash password engine = engine.generate password

unfoldable pub password_verify : Bytes → Bytes → (Bytes → Option HashingEngine) → Result Bool
password_verify password hash table =
    if is_empty hash then err (exception 1) else elim (table hash) [
      | none ↦ err (exception 2)
      | some verifyer ↦ ok (verifyer.verify password hash)
    ]
