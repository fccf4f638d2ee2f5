-- ===== src/Hashing.antt =====
-- src/hashing and src/util/crypto.cpp: digests, and the hashing of passwords.
pub mod Bits
pub mod Argon2
pub mod Bcrypt
pub mod Crypto
