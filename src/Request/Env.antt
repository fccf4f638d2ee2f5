-- ===== src/Request/Env.antt =====
-- src/request/Env.cpp: the environment variables of a request.
use nawa.Common.{List, Option, none, some, [], Bytes, codes}
use nawa.Common.Table.{text_eq, lookup}
use nawa.Util.Strings.{split_path}

abbrev pub or_empty : Option Bytes → Bytes
or_empty none = []
or_empty (some v) = v

-- `env[...]`: the empty text where the variable is absent.
unfoldable pub get : List (Bytes × Bytes) → Bytes → Bytes
get environment env_var = or_empty (lookup env_var environment)

unfoldable pub get_request_path : List (Bytes × Bytes) → List Bytes
unfolding get split_path
get_request_path environment = split_path (get environment (codes "REQUEST_URI"))
