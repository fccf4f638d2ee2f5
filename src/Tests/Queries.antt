-- ===== src/Tests/Queries.antt =====
-- Runs of the theorems on queries, fields and new connections.
use mathlib.Core.List.{Perm, reverse, reverse_perm}
use nawa.Common.{◌<◌, ◌≡◌, refl, List, [], ◌∷◌, some, arith, length, All, Bytes, codes}
use nawa.Common.Table.{text_eq}
use nawa.Util.Encoding.{url_encode}
use nawa.Util.Queries.{split_query_string, field}
use nawa.Util.Queries.Fields.{field_lem}
use nawa.Util.Queries.RoundTrip.{IsEntry, pair, query, split_query_string-query}

field_lem_example :
    (field b':' (codes "k:v") ≡ some (codes "k", codes "v"))
    × (field b':' (codes "kv") ≡ some (codes "kv", codes "kv"))
field_lem_example =
    field_lem b':' (codes "k") (codes "v") (codes "kv") ((λ e. omega (arith, e)), tt) (omega arith)
      (λ e. cc) ((λ e. omega (arith, e)), ((λ e. omega (arith, e)), tt)) (omega arith)

abbrev pairs : List (Bytes × Bytes)
pairs = (codes "a", codes "1&") ∷ (codes "a", []) ∷ []

a_name : (v : Bytes) → All (λ c. c < 256) v → IsEntry (codes "a", v)
a_name v h =
    (((λ e. omega (arith, e)), tt), ((λ e. omega (arith, e)), tt), ((λ e. omega (arith, e)), tt), h)

pairs_entries : All IsEntry pairs
pairs_entries = (a_name (codes "1&") (omega arith, (omega arith, tt)), (a_name [] tt, tt))

query_size : length (query pairs) ≡ 9
unfolding query pair url_encode
query_size = refl

-- A hash table that keeps its elements in reverse.
split_query_string-query_example : Perm (split_query_string reverse (query pairs)) pairs
split_query_string-query_example =
    split_query_string-query reverse pairs (λ inserted. reverse_perm inserted) pairs_entries
      (omega (arith, query_size))
