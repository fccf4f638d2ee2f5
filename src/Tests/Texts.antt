-- ===== src/Tests/Texts.antt =====
-- Runs of the theorems on texts and on the configuration.
use nawa.Common.{◌≡◌, refl, false, [], ◌∷◌, List, arith, All, codes, length}
use nawa.Common.Table.{pair_eq, lookup}
use nawa.Util.Strings.{split_string, merge_path, split_path}
use nawa.Util.Strings.Split.{kept, pieces, split_string-pieces}
use nawa.Util.Strings.Paths.{IsElement, split_path-merge_path}
use nawa.Config.{Entry, override, insert, get, or_empty}
use nawa.Config.Laws.{last_value, first_value, get-override}
use nawa.Tests.Sample.{config}

split_string-pieces_example :
    split_string (codes "a,,b,") b',' false ≡ kept false (pieces b',' (codes "a,,b,"))
split_string-pieces_example = split_string-pieces (codes "a,,b,") b',' false (omega arith)

elements : All IsElement (codes "a" ∷ codes "bc" ∷ [])
elements = (
  ((λ e. cc), ((λ e. omega (arith, e)), tt), ((λ e. omega (arith, e)), tt)),
  (
    (
      (λ e. cc),
      ((λ e. omega (arith, e)), ((λ e. omega (arith, e)), tt)),
      ((λ e. omega (arith, e)), ((λ e. omega (arith, e)), tt)),
    ),
    tt,
  ),
)

merged_fits : length (merge_path (codes "a" ∷ codes "bc" ∷ [])) ≡ 5
unfolding merge_path
merged_fits = refl

split_path-merge_path_example :
    split_path (merge_path (codes "a" ∷ codes "bc" ∷ [])) ≡ codes "a" ∷ codes "bc" ∷ []
split_path-merge_path_example =
    split_path-merge_path (codes "a" ∷ codes "bc" ∷ []) elements (omega (arith, merged_fits))

abbrev entries : List Entry
entries = ((codes "s", codes "n"), codes "v") ∷ []

get-override_example :
    (get (override entries config) (codes "s") (codes "n")
      ≡ or_empty
          (last_value (codes "s", codes "n") entries (lookup (codes "s", codes "n") config.values)))
    × (get (insert entries config) (codes "s") (codes "n")
        ≡ or_empty (
            first_value
              (codes "s", codes "n")
              entries
              (lookup (codes "s", codes "n") config.values)))
get-override_example = get-override (codes "s") (codes "n") entries config
