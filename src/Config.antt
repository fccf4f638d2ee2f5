-- ===== src/Config.antt =====
-- src/config/Config.cpp: configuration values by section and name.
pub mod Laws
use nawa.Common.{ℕ, Bool, true, false, List, [], ◌∷◌, Option, none, some, Bytes}
use nawa.Common.Table.{pair_eq, lookup, assign, insert_new}
use nawa.Common.Result.{Result, ok, err, exception}

abbrev pub Entry : Type 0
Entry = (Bytes × Bytes) × Bytes

pub record Config : Type 0 where
  pub values : List Entry

unfoldable pub insert_all : List Entry → List Entry → List Entry
insert_all [] values = values
insert_all ((k, v) ∷ init) values = insert_all init (insert_new k v values)

-- The constructor from an initializer list, and `insert`.
unfoldable pub from_list : List Entry → Config
unfolding insert_all
from_list init = record { values = insert_all init [] }

unfoldable pub insert : List Entry → Config → Config
unfolding insert_all
insert init config = record { values = insert_all init config.values }

-- What `ini_parse` does with a file: whether its result is negative, and the values that it hands to
-- the callback. The callback inserts each at once, so they stay also where the call throws.
unfoldable pub read : (Bytes → Bool × List Entry) → Bytes → Config → Config × Result (Unit {0})
unfolding insert
read ini_parse ini_file config =
    let (failed, entries) = ini_parse ini_file in
    (insert entries config, elim failed [ true ↦ err (exception 1) | false ↦ ok tt ])

assign_all : List Entry → List Entry → List Entry
assign_all [] values = values
assign_all ((k, v) ∷ overrides) values = assign_all overrides (assign k v values)

unfoldable pub override : List Entry → Config → Config
unfolding assign_all
override overrides config = record { values = assign_all overrides config.values }

abbrev is_some {ℓ} : {A : Type ℓ} → Option A → Bool
is_some none = false
is_some (some a) = true

unfoldable pub is_set : Bytes × Bytes → Config → Bool
is_set key config = is_some (lookup key config.values)

abbrev pub or_empty : Option Bytes → Bytes
or_empty none = []
or_empty (some v) = v

-- `config[{section, name}]`: the empty text where nothing is set.
unfoldable pub get : Config → Bytes → Bytes → Bytes
get config section name = or_empty (lookup (section, name) config.values)

unfoldable pub set : Bytes → Bytes → Bytes → Config → Config
set section name value config = record { values = assign (section, name) value config.values }
