-- ===== src/Hashing/Argon2/Laws.antt =====
-- The comparison that looks at all bytes is equality, and what verification accepts.
use Prim.Native.Nat.{bit_or, bit_xor}
use nawa.Common.{
  ℕ, ◌+◌, ◌*◌, ◌/◌, ◌%◌, ◌≤◌, ◌≡◌, ◌⊎◌, ◌↔◌, refl, sym, ap, subst, ◌∙◌, arith, true, false, [], ◌∷◌,
  Option, none, some, ltb, ◌==◌, ==_iff, length, is_empty, inl, inr, Bool-cases, Option-cases,
  Bytes, beq, beq_iff,
}
use nawa.Common.Result.{Result, ok, err, exception, Result-cases}
use nawa.Common.Number.{u64}
use nawa.Hashing.Bits.{bit_or-zero, bit_xor-zero}
use nawa.Hashing.Argon2.{
  Argon2, Argon2HashingEngine, Fields, random_salt, generate_hash, match_encoded, uint32, engine_of,
  differences, same_bytes, hash_part, usable, verify_hash,
}

differences-zero :
    (ret : ℕ) (s t : Bytes)
    → length s ≡ length t
    → (differences ret s t ≡ 0) ↔ ((ret ≡ 0) × (s ≡ t))
unfolding differences
differences-zero ret [] [] h = ((λ e. (e, refl)), (λ (e, p). e))
differences-zero ret [] (y ∷ t) h = absurd (omega (arith, h))
differences-zero ret (x ∷ s) [] h = absurd (omega (arith, h))
differences-zero ret (x ∷ s) (y ∷ t) h =
    let (to, from) = differences-zero (bit_or ret (bit_xor x y)) s t (omega (arith, h)) in
    let or = bit_or-zero ret (bit_xor x y) in
    let xor = bit_xor-zero x y in
    (
      (λ e.
          let (zero, rest) = to e in
          let (first, second) = or.0 zero in (first, cc (xor.0 second, rest))),
      (λ (e, p). from (or.1 (e, xor.1 (cc p)), cc p)),
    )

same_bytes-beq : (s t : Bytes) → same_bytes s t ≡ beq s t
unfolding same_bytes
same_bytes-beq s t = elim (Bool-cases (length s == length t)) [
  | inr other ↦ elim (Bool-cases (beq s t)) [
    | inr differs ↦ rw (other, differs) refl
    | inl equal ↦
        let size = (==_iff (length s) (length t)).1 (ap length ((beq_iff s t).0 equal)) in
        cc (other, size)
  ]
  | inl size ↦
      let (to, from) = differences-zero 0 s t ((==_iff (length s) (length t)).0 size) in
      elim (Bool-cases (beq s t)) [
        | inl equal ↦
            let none_differ = from (refl, (beq_iff s t).0 equal) in
            rw (size, equal, none_differ) refl
        | inr differs ↦ elim (Bool-cases (differences 0 s t == 0)) [
          | inr some_differ ↦ rw (size, differs, some_differ) refl
          | inl equal ↦
              let same = (beq_iff s t).1 (to ((==_iff (differences 0 s t) 0).0 equal)).1 in
              cc (differs, same)
        ]
      ]
]

-- The engine that a hash has been made with: its flavour, its numbers, and the salt and length of what
-- is stored in it.
abbrev pub made_with : Argon2 → Fields → ℕ → ℕ → ℕ → Argon2HashingEngine
made_with c f memory time lanes = record {
  algorithm = f.flavour;
  time_cost = time;
  memory_cost = memory;
  parallelism = lanes;
  salt = c.base64_decode f.salt_text;
  hash_len = length (c.base64_decode f.hash_text);
}

-- What libargon2 makes of an input, given a salt of 8 bytes at least, or a random one for none.
abbrev pub Encodes : Argon2 → Argon2HashingEngine → Bytes → Bytes → Type 0
Encodes c e input text =
    let size = λ (salt : Bytes). (50 + (length salt * 4) / 3 + (e.hash_len * 4) / 3) % u64 in
    ((is_empty e.salt ≡ true)
      × (c.hash_encoded e input (random_salt c) (size (random_salt c)) ≡ some text))
    ⊎ ((is_empty e.salt ≡ false)
        × (8 ≤ length e.salt)
        × (c.hash_encoded e input e.salt (size e.salt) ≡ some text))

-- What a hash that is accepted comes with.
abbrev pub Matches : Argon2 → Bytes → Bytes → Type 0
Matches c input hash =
    (f : Fields) × (memory : ℕ) × (time : ℕ) × (lanes : ℕ) × (text : Bytes) × (match_encoded hash
      ≡ some f)
    × (uint32 f.version ≡ ok 19)
    × (uint32 f.memory ≡ ok memory)
    × (uint32 f.time ≡ ok time)
    × (uint32 f.lanes ≡ ok lanes)
    × Encodes c (made_with c f memory time lanes) input text
    × (c.base64_decode f.hash_text ≡ c.base64_decode (hash_part text))

encoded_lem :
    (made : Option Bytes) (text : Bytes)
    → ◌≡◌ {A = Result Bytes}
        (elim made [ none ↦ err (exception 10) | some hash ↦ ok hash ])
        (ok text)
    → made ≡ some text
encoded_lem none text h = cc
encoded_lem (some hash) text h = cc

generate_hash-Encodes :
    (c : Argon2) (e : Argon2HashingEngine) (input text : Bytes)
    → generate_hash c e input ≡ ok text
    → Encodes c e input text
unfolding generate_hash
generate_hash-Encodes c e input text h = elim (Bool-cases (is_empty e.salt)) [
  | inl free ↦ inl (free, encoded_lem _ text (rw (free, generate_hash) at h))
  | inr given ↦ elim (Bool-cases (ltb (length e.salt) 8)) [
    | inl short ↦ cc (rw (given, short, generate_hash) at h)
    | inr long ↦
        inr (given, ground arith, encoded_lem _ text (rw (given, long, generate_hash) at h))
  ]
]

Encodes-generate_hash :
    (c : Argon2) (e : Argon2HashingEngine) (input text : Bytes)
    → Encodes c e input text
    → generate_hash c e input ≡ ok text
unfolding generate_hash
Encodes-generate_hash c e input text (inl (free, made)) = rw (free, made, generate_hash) refl
Encodes-generate_hash c e input text (inr (given, long, made)) =
    let long' : ltb (length e.salt) 8 ≡ false = ground arith in
    rw (given, long', made, generate_hash) refl

ok_value {ℓ} : {A : Type ℓ} {a b : A} → ◌≡◌ {A = Result A} (ok a) (ok b) → a ≡ b
ok_value h = cc

-- What `engine_of` returns, and that it throws nothing then.
engine_of_lem :
    (c : Argon2) (f : Fields) (r : ℕ × Argon2HashingEngine × Bytes)
    → engine_of c f ≡ ok r
    → (memory : ℕ) × (time : ℕ) × (lanes : ℕ) × (uint32 f.version ≡ ok r.0)
      × (uint32 f.memory ≡ ok memory)
      × (uint32 f.time ≡ ok time)
      × (uint32 f.lanes ≡ ok lanes)
      × (r.1 ≡ made_with c f memory time lanes)
      × (r.2 ≡ c.base64_decode f.hash_text)
unfolding engine_of
engine_of_lem c f r h = elim (Result-cases (uint32 f.version)) [
  | inr (x, failed) ↦ cc (rw (failed, engine_of) at h)
  | inl (version, v) ↦ elim (Result-cases (uint32 f.memory)) [
    | inr (x, failed) ↦ cc (rw (v, failed, engine_of) at h)
    | inl (memory, m) ↦ elim (Result-cases (uint32 f.time)) [
      | inr (x, failed) ↦ cc (rw (v, m, failed, engine_of) at h)
      | inl (time, t) ↦ elim (Result-cases (uint32 f.lanes)) [
        | inr (x, failed) ↦ cc (rw (v, m, t, failed, engine_of) at h)
        | inl (lanes, p) ↦
            let found = ok_value (rw (v, m, t, p, engine_of) at h) in
            (
              memory,
              time,
              lanes,
              v ∙ ap (λ x. ok (x.0)) found,
              m,
              t,
              p,
              sym (ap (λ x. x.1) found),
              sym (ap (λ x. x.2) found),
            )
      ]
    ]
  ]
]

usable_lem :
    (c : Argon2) (hash : Bytes) (e : Argon2HashingEngine) (stored : Bytes)
    → usable c hash ≡ some (e, stored)
    → (f : Fields) × (match_encoded hash ≡ some f) × (engine_of c f ≡ ok (19, e, stored))
unfolding usable
usable_lem c hash e stored h = elim (Option-cases (match_encoded hash)) [
  | inl other ↦ cc (rw (other, usable) at h)
  | inr (f, matched) ↦ elim (Result-cases (engine_of c f)) [
    | inr (x, failed) ↦ cc (rw (matched, failed, usable) at h)
    | inl ((version, e', stored'), read) ↦ elim (Bool-cases (version == 19)) [
      | inr older ↦ cc (rw (matched, read, older, usable) at h)
      | inl current ↦
          let v : version ≡ 19 = (==_iff version 19).0 current in
          let found : ◌≡◌ {A = Option (Argon2HashingEngine × Bytes)} (some (e', stored'))
              (some (e, stored)) =
            rw (matched, read, current, usable) at h in
          let pair : ◌≡◌ {A = Argon2HashingEngine × Bytes} (e', stored') (e, stored) = cc found in
          (
            f,
            matched,
            read
                ∙ ap (λ n. ok (n, e', stored')) v
                ∙ ap (λ (x : Argon2HashingEngine × Bytes). ok (19, x.0, x.1)) pair,
          )
    ]
  ]
]

verified-Matches :
    (c : Argon2) (input hash : Bytes) → verify_hash c input hash ≡ true → Matches c input hash
unfolding verify_hash
verified-Matches c input hash h = elim (Option-cases (usable c hash)) [
  | inl useless ↦ cc (rw (useless, verify_hash) at h)
  | inr ((engine, stored), u) ↦ elim (Result-cases (generate_hash c engine input)) [
    | inr (x, failed) ↦ cc (rw (u, failed, verify_hash) at h)
    | inl (text, g) ↦
        let computed = c.base64_decode (hash_part text) in
        let equal = sym (same_bytes-beq stored computed) ∙ rw (u, g, verify_hash) at h in
        let same = (beq_iff stored computed).0 equal in
        let (f, matched, read) = usable_lem c hash engine stored u in
        let (memory, time, lanes, v, m, t, p, e, s) = engine_of_lem c f (19, engine, stored) read in
        let made = generate_hash-Encodes c engine input text g in
        (
          f,
          memory,
          time,
          lanes,
          text,
          matched,
          v,
          m,
          t,
          p,
          subst (λ x. Encodes c x input text) e made,
          sym s ∙ same,
        )
  ]
]

Matches-verified :
    (c : Argon2) (input hash : Bytes) → Matches c input hash → verify_hash c input hash ≡ true
unfolding verify_hash usable engine_of
Matches-verified c input hash (f, memory, time, lanes, text, matched, v, m, t, p, made, same) =
    let stored = c.base64_decode f.hash_text in
    let computed = c.base64_decode (hash_part text) in
    let g = Encodes-generate_hash c (made_with c f memory time lanes) input text made in
    rw (matched, v, m, t, p, g, verify_hash)
      (same_bytes-beq stored computed ∙ (beq_iff stored computed).1 same)

-- A password is accepted for a hash exactly if the pattern matches the hash, with the version 19 and
-- further numbers that can be read, libargon2 makes a hash of the password with these parameters and
-- the salt in the hash, which has 8 bytes at least or is empty and is replaced, and what is decoded
-- from that hash is, byte for byte, what is decoded from the stored one.
pub verify_hash-Matches :
    (c : Argon2) (input hash : Bytes) → (verify_hash c input hash ≡ true) ↔ Matches c input hash
verify_hash-Matches c input hash = (verified-Matches c input hash, Matches-verified c input hash)
