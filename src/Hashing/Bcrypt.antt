-- ===== src/Hashing/Bcrypt.antt =====
-- src/hashing/HashingEngine/impl/BcryptHashingEngine.cpp. The functions of libs/libbcrypt are
-- parameters.
use nawa.Common.{ℕ, Bool, Option, none, some, ◌==◌, if◌then◌else◌, is_empty, take, Bytes}
use nawa.Common.Result.{Result, ok, err, exception, undefined}

pub record BcryptHashingEngine : Type 0 where
  pub work_factor : ℕ
  pub salt : Bytes

-- `bcrypt_gensalt`, `bcrypt_hashpw`, whose result is the whole buffer, and `bcrypt_checkpw`, whose
-- result is 0 on a match.
pub record Bcrypt : Type 0 where
  pub gensalt : ℕ → Option Bytes
  pub hashpw : Bytes → Bytes → Option Bytes
  pub checkpw : Bytes → Bytes → ℕ

-- A salt that the user gives is copied into the buffer of the result, so that the buffer of the
-- salt is read without ever having been written.
unfoldable pub generate_bcrypt : Bcrypt → BcryptHashingEngine → Bytes → Result Bytes
generate_bcrypt c e input =
    if is_empty e.salt
    then elim (c.gensalt e.work_factor) [
      | none ↦ err (exception 10)
      | some bcsalt ↦ elim (c.hashpw input bcsalt) [
        | none ↦ err (exception 11)
        | some hash ↦ ok (take 60 hash)
      ]
    ]
    else err undefined

unfoldable pub verify_bcrypt : Bcrypt → Bytes → Bytes → Bool
verify_bcrypt c input hash = c.checkpw input hash == 0
