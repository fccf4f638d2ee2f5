-- ===== src/Connection/Headers.antt =====
-- The values of a response header.
use nawa.Common.{
  ◌≡◌, refl, ap, ◌∙◌, Bool, true, false, List, [], ◌∷◌, ◌++◌, Option, none, some, inl, inr,
  Bool-cases, if◌then◌else◌, Bytes, beq, beq_iff,
}
use nawa.Common.Table.{text_eq, lookup, lookup-assign, lookup-erase}
use nawa.Util.Strings.{to_lowercase}
use nawa.Connection.State.{Connection}
use nawa.Connection.Response.{set_header, add_header, unset_header, or_none}

-- The values of the header that a name stands for, whatever its case.
pub header_values : Bytes → Connection → List Bytes
header_values key c = or_none (lookup (to_lowercase key) c.headers)

or_none-if :
    (b : Bool) (vs : List Bytes) (o : Option (List Bytes))
    → or_none (if b then some vs else o) ≡ (if b then vs else or_none o)
or_none-if true vs o = refl
or_none-if false vs o = refl

or_none-erased :
    (b : Bool) (o : Option (List Bytes))
    → or_none (if b then none else o) ≡ (if b then [] else or_none o)
or_none-erased true o = refl
or_none-erased false o = refl

-- Two names in one header share their values.
same_values :
    (k j v : Bytes) (m : List (Bytes × List Bytes))
    → (if beq k j then or_none (lookup k m) ++ v ∷ [] else or_none (lookup j m))
      ≡ (if beq k j then or_none (lookup j m) ++ v ∷ [] else or_none (lookup j m))
same_values k j v m = elim (Bool-cases (beq k j)) [
  | inl same ↦ let e = (beq_iff k j).0 same in rw same (ap (λ i. or_none (lookup i m) ++ v ∷ []) e)
  | inr other ↦ rw other refl
]

-- `setHeader` makes a value the only one of its header, `addHeader` puts it behind the others, and
-- `unsetHeader` leaves none; two names are one header if they differ in case only, and no other
-- header changes.
pub header_values-lem :
    (key other value : Bytes) (c : Connection)
    → let same = beq (to_lowercase key) (to_lowercase other) in
      let old = header_values other c in
      (header_values other (set_header key value c) ≡ (if same then value ∷ [] else old))
      × (header_values other (add_header key value c) ≡ (if same then old ++ value ∷ [] else old))
      × (header_values other (unset_header key c) ≡ (if same then [] else old))
unfolding header_values set_header add_header unset_header
header_values-lem key other value c =
    let k = to_lowercase key in
    let j = to_lowercase other in
    (
      ap or_none (lookup-assign k j (value ∷ []) c.headers)
          ∙ or_none-if (beq k j) (value ∷ []) (lookup j c.headers),
      (ap or_none (lookup-assign k j (or_none (lookup k c.headers) ++ value ∷ []) c.headers)
          ∙ or_none-if (beq k j) (or_none (lookup k c.headers) ++ value ∷ []) (lookup j c.headers)
          ∙ same_values k j value c.headers),
      ap or_none (lookup-erase k j c.headers) ∙ or_none-erased (beq k j) (lookup j c.headers),
    )
