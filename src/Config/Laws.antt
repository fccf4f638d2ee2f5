-- ===== src/Config/Laws.antt =====
-- Which value wins in a configuration.
use nawa.Common.{
  ◌≡◌, refl, ap, ◌∙◌, List, [], ◌∷◌, Option, none, some, if◌then◌else◌, inl, inr, Bool-cases, Bytes,
}
use nawa.Common.Table.{pair_eq, pair_test, lookup, lookup-assign, lookup-insert_new}
use nawa.Config.{Entry, Config, insert_all, assign_all, insert, override, get, or_empty}

-- The last value that a list gives a key, and else the one that the key has.
pub last_value : Bytes × Bytes → List Entry → Option Bytes → Option Bytes
last_value key [] old = old
last_value key ((k, v) ∷ es) old = last_value key es (if pair_test k key then some v else old)

-- The value that a key has, and else the first that a list gives it.
pub first_value : Bytes × Bytes → List Entry → Option Bytes → Option Bytes
first_value key es (some old) = some old
first_value key [] none = none
first_value key ((k, v) ∷ es) none =
    let rest = first_value key es none in if pair_test k key then some v else rest

first_value_nil : (key : Bytes × Bytes) (o : Option Bytes) → o ≡ first_value key [] o
unfolding first_value
first_value_nil key none = refl
first_value_nil key (some v) = refl

lookup-assign_all :
    (key : Bytes × Bytes) (es values : List Entry)
    → lookup key (assign_all es values) ≡ last_value key es (lookup key values)
unfolding assign_all last_value
lookup-assign_all key [] values = refl
lookup-assign_all key ((k, v) ∷ es) values =
    lookup-assign_all key es _ ∙ ap (last_value key es) (lookup-assign k key v values)

first_value-some :
    (key : Bytes × Bytes) (es : List Entry) (v : Bytes) → first_value key es (some v) ≡ some v
unfolding first_value
first_value-some key [] v = refl
first_value-some key (e ∷ es) v = refl

first_value-cons :
    (key k : Bytes × Bytes) (v : Bytes) (es : List Entry) (old : Option Bytes)
    → first_value key es
        (elim old [ some w ↦ some w | none ↦ if pair_test k key then some v else none ])
      ≡ first_value key ((k, v) ∷ es) old
unfolding first_value
first_value-cons key k v es (some w) = first_value-some key es w
first_value-cons key k v es none = elim (Bool-cases (pair_test k key)) [
  | inl same ↦ rw same (first_value-some key es v)
  | inr other ↦ rw other refl
]

lookup-insert_all :
    (key : Bytes × Bytes) (es values : List Entry)
    → lookup key (insert_all es values) ≡ first_value key es (lookup key values)
unfolding insert_all
lookup-insert_all key [] values = first_value_nil key (lookup key values)
lookup-insert_all key ((k, v) ∷ es) values =
    lookup-insert_all key es _
    ∙ ap (first_value key es) (lookup-insert_new k key v values)
    ∙ first_value-cons key k v es (lookup key values)

-- After `override` a value reads as the last one that the overrides give it, and as before where
-- they give none; after an insertion it reads as before, and else as the first one inserted.
pub get-override :
    (section name : Bytes) (es : List Entry) (config : Config)
    → (get (override es config) section name
        ≡ or_empty (last_value (section, name) es (lookup (section, name) config.values)))
      × (get (insert es config) section name
          ≡ or_empty (first_value (section, name) es (lookup (section, name) config.values)))
unfolding get override insert
get-override section name es config = (
  ap or_empty (lookup-assign_all (section, name) es config.values),
  ap or_empty (lookup-insert_all (section, name) es config.values),
)
