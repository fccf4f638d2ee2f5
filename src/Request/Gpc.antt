-- ===== src/Request/Gpc.antt =====
-- src/request/GPC/GPC.cpp: variables that may occur more than once.
use nawa.Common.{ℕ, Bool, not, List, length, is_empty, Bytes}
use nawa.Common.Table.{text_eq, lookup, values_at}
use nawa.Request.Init.{RequestInit}
use nawa.Request.Env.{or_empty}

pub data Source : Type 0 where
  get_source post_source cookie_source : Source

pub record Gpc : Type 0 where
  pub source : Source
  pub data_map : List (Bytes × Bytes)

unfoldable pub make : RequestInit → Source → Gpc
make init cookie_source = record { source = cookie_source; data_map = init.cookie_vars }
make init post_source = record { source = post_source; data_map = init.post_vars }
make init get_source = record { source = get_source; data_map = init.get_vars }

-- `gpc[...]`: one of the values, or the empty text.
unfoldable pub get : Gpc → Bytes → Bytes
get g gpc_var = or_empty (lookup gpc_var g.data_map)

unfoldable pub get_vector : Gpc → Bytes → List Bytes
get_vector g gpc_var = values_at gpc_var g.data_map

unfoldable pub count : Gpc → Bytes → ℕ
count g gpc_var = length (values_at gpc_var g.data_map)

-- `operator bool`.
unfoldable pub is_filled : Gpc → Bool
is_filled g = not (is_empty g.data_map)
