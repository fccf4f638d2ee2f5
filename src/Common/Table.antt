-- ===== src/Common/Table.antt =====
-- std::unordered_map and std::unordered_multimap as lists of pairs. The order in which the library
-- walks such a map is unspecified; the list is one such order.
use mathlib.Core.Bool.{Bool, true, false, ◌&&◌}
use mathlib.Core.List.{List, [], ◌∷◌}
use mathlib.Core.Logic.{◌↔◌, inl, inr}
use mathlib.Core.Option.{Option, none, some}
use mathlib.Core.Path.{◌≡◌, refl, subst, ap, ◌∙◌}
use native.Mathlib.Omega.{arith}
use nawa.Common.Tests.{if◌then◌else◌, Bool-cases}
use nawa.Common.Text.{Bytes, beq, beq_iff}

-- Keys are compared by `==`, which decides equality.
pub record Eq {ℓ} (K : Type ℓ) : Type ℓ where
  pub test : K → K → Bool
  pub test_iff : (j k : K) → (test j k ≡ true) ↔ (j ≡ k)

instance abbrev pub text_eq : Eq Bytes
text_eq = record { test = beq; test_iff = beq_iff }

unfoldable pub pair_test : Bytes × Bytes → Bytes × Bytes → Bool
pair_test (a, b) (c, d) = beq a c && beq b d

pub pair_test_iff : (j k : Bytes × Bytes) → (pair_test j k ≡ true) ↔ (j ≡ k)
unfolding pair_test
pair_test_iff (a, b) (c, d) = ground (arith, beq_iff a c, beq_iff b d)

-- Keys of a configuration value: section and name.
instance abbrev pub pair_eq : Eq (Bytes × Bytes)
pair_eq = record { test = pair_test; test_iff = pair_test_iff }

module _ {ℓ κ} {K : Type ℓ} {V : Type κ} ⦃e : Eq K⦄ where
  -- The value at a key, or the first of them in a multimap.
  unfoldable pub lookup : K → List (K × V) → Option V
  lookup k [] = none
  lookup k ((j, v) ∷ m) = if e.test j k then some v else lookup k m

  -- `m[k] = v`.
  unfoldable pub assign : K → V → List (K × V) → List (K × V)
  assign k v [] = (k, v) ∷ []
  assign k v ((j, w) ∷ m) = if e.test j k then (j, v) ∷ m else (j, w) ∷ assign k v m

  -- `m.insert({k, v})` of a map: a key that is there keeps its value.
  unfoldable pub insert_new : K → V → List (K × V) → List (K × V)
  insert_new k v [] = (k, v) ∷ []
  insert_new k v ((j, w) ∷ m) = if e.test j k then (j, w) ∷ m else (j, w) ∷ insert_new k v m

  unfoldable pub erase : K → List (K × V) → List (K × V)
  erase k [] = []
  erase k ((j, v) ∷ m) = let rest = erase k m in if e.test j k then rest else (j, v) ∷ rest

  -- `equal_range` of a multimap.
  unfoldable pub values_at : K → List (K × V) → List V
  values_at k [] = []
  values_at k ((j, v) ∷ m) = let rest = values_at k m in if e.test j k then v ∷ rest else rest

  -- Erasing the entries that a test picks.
  unfoldable pub erase_if : (K → V → Bool) → List (K × V) → List (K × V)
  erase_if p [] = []
  erase_if p ((j, v) ∷ m) = let rest = erase_if p m in if p j v then rest else (j, v) ∷ rest

  pub lookup-assign :
      (k j : K) (v : V) (m : List (K × V))
      → lookup j (assign k v m) ≡ (if e.test k j then some v else lookup j m)
  unfolding lookup assign
  lookup-assign k j v [] = refl
  lookup-assign k j v ((i, w) ∷ m) =
      ground (arith, e.test_iff k j, e.test_iff i k, e.test_iff i j, lookup-assign k j v m)

  pub lookup-insert_new :
      (k j : K) (v : V) (m : List (K × V))
      → lookup j (insert_new k v m)
        ≡ elim (lookup j m) [ some w ↦ some w | none ↦ if e.test k j then some v else none ]
  unfolding lookup insert_new
  lookup-insert_new k j v [] = refl
  lookup-insert_new k j v ((i, w) ∷ m) =
      ground (arith, e.test_iff k j, e.test_iff i k, e.test_iff i j, lookup-insert_new k j v m)

  pub lookup-erase :
      (k j : K) (m : List (K × V))
      → lookup j (erase k m) ≡ (if e.test k j then none else lookup j m)
  unfolding lookup erase
  lookup-erase k j [] = ground arith
  lookup-erase k j ((i, w) ∷ m) =
      ground (arith, e.test_iff k j, e.test_iff i k, e.test_iff i j, lookup-erase k j m)

  -- What keeps the keys of a map distinct.
  unfoldable pub Distinct : List (K × V) → Type κ
  unfolding lookup
  Distinct [] = Unit
  Distinct ((k, v) ∷ m) = (lookup k m ≡ none) × Distinct m

  -- The value that is left at a key when the entries that a test picks are erased.
  abbrev pub unless : (K → V → Bool) → K → Option V → Option V
  unless p k none = none
  unless p k (some v) = if p k v then none else some v

  -- `p` may read the key, so the two keys that `==` identifies are replaced by one another.
  pub lookup-erase_if :
      (p : K → V → Bool) (k : K) (m : List (K × V))
      → Distinct m
      → lookup k (erase_if p m) ≡ unless p k (lookup k m)
  unfolding lookup erase_if Distinct
  lookup-erase_if p k [] d = refl
  lookup-erase_if p k ((j, v) ∷ m) d = elim (Bool-cases (e.test j k)) [
    | inl same ↦
        let q = (e.test_iff j k).0 same in
        let gone : lookup k m ≡ none = subst (λ i. lookup i m ≡ none) q d.0 in
        elim (Bool-cases (p j v)) [
          | inl drop ↦
              let drop' : p k v ≡ true = subst (λ i. p i v ≡ true) q drop in
              rw (drop, same, drop') (lookup-erase_if p k m d.1 ∙ ap (unless p k) gone)
          | inr keep ↦
              let keep' : p k v ≡ false = subst (λ i. p i v ≡ false) q keep in
              rw (keep, same, keep') refl
        ]
    | inr other ↦ elim (Bool-cases (p j v)) [
      | inl drop ↦ rw (drop, other) (lookup-erase_if p k m d.1)
      | inr keep ↦ rw (keep, other) (lookup-erase_if p k m d.1)
    ]
  ]

  pub Distinct-erase_if :
      (p : K → V → Bool) (m : List (K × V)) → Distinct m → Distinct (erase_if p m)
  unfolding erase_if Distinct
  Distinct-erase_if p [] d = d
  Distinct-erase_if p ((j, v) ∷ m) d = elim (Bool-cases (p j v)) [
    | inl drop ↦ rw drop (Distinct-erase_if p m d.1)
    | inr keep ↦
        rw keep (lookup-erase_if p j m d.1 ∙ ap (unless p j) d.0, Distinct-erase_if p m d.1)
  ]

  pub Distinct-erase : (k : K) (m : List (K × V)) → Distinct m → Distinct (erase k m)
  unfolding erase Distinct
  Distinct-erase k [] d = d
  Distinct-erase k ((j, v) ∷ m) d = elim (Bool-cases (e.test j k)) [
    | inl drop ↦ rw drop (Distinct-erase k m d.1)
    | inr keep ↦ rw keep (ground (arith, lookup-erase k j m, d.0), Distinct-erase k m d.1)
  ]

  pub Distinct-assign : (k : K) (v : V) (m : List (K × V)) → Distinct m → Distinct (assign k v m)
  unfolding assign Distinct
  Distinct-assign k v [] d = (refl, tt)
  Distinct-assign k v ((j, w) ∷ m) d = elim (Bool-cases (e.test j k)) [
    | inl same ↦ rw same d
    | inr other ↦ rw other (
      ground (arith, lookup-assign k j v m, d.0, e.test_iff j k, e.test_iff k j),
      Distinct-assign k v m d.1,
    )
  ]

module _ {ℓ} {K : Type ℓ} ⦃e : Eq K⦄ where
  pub test_refl : (k : K) → e.test k k ≡ true
  test_refl k = (e.test_iff k k).1 refl
