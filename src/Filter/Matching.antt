-- ===== src/Filter/Matching.antt =====
-- `AccessFilter::matches` of src/filter/AccessFilter/AccessFilter.cpp.
pub mod Laws
use nawa.Common.{
  Bool, true, false, not, ◌&&◌, ◌||◌, List, [], ◌∷◌, ◌++◌, ltb, if◌then◌else◌, length, is_empty,
  Bytes, beq,
}
use nawa.Common.Result.{Result, ok, err, ◌>>=◌, undefined}
use nawa.Util.Strings.{get_file_extension}
use nawa.Filter.Types.{AccessFilter}

-- The elements of a filter's path are compared to those of the request one by one.
equal_up_to : List Bytes → List Bytes → Bool
equal_up_to [] path = true
equal_up_to (f ∷ filter) [] = false
equal_up_to (f ∷ filter) (e ∷ path) = beq f e && equal_up_to filter path

pub path_matches : List Bytes → List (List Bytes) → Bool
unfolding equal_up_to
path_matches path [] = false
path_matches path (filter ∷ filters) =
    let rest = path_matches path filters in
    if ltb (length path) (length filter)
    then rest
    else if equal_up_to filter path
    then true
    else rest

pub extension_matches : Bytes → List Bytes → Bool
extension_matches extension [] = false
extension_matches extension (e ∷ es) = beq extension e || extension_matches extension es

-- The condition under which a filter goes on, given whether it matched and whether it is inverted.
abbrev pub passes : Bool → Bool → Bool
passes matched invert = not ((not matched && not invert) || (matched && invert))

-- `back()` of an empty path is undefined behaviour.
pub last_element : List Bytes → Result Bytes
last_element [] = err undefined
last_element (e ∷ []) = ok e
last_element (e ∷ f ∷ path) = last_element (f ∷ path)

pub path_string : List Bytes → Bytes
path_string [] = []
path_string (e ∷ path) = 47 ∷ (e ++ path_string path)

pub path_condition : AccessFilter → List Bytes → Bool
path_condition f path =
    if is_empty f.path_filter
    then true
    else passes (path_matches path f.path_filter) f.invert_path_filter

pub extension_condition : AccessFilter → List Bytes → Result Bool
extension_condition f path =
    if is_empty f.extension_filter
    then ok true
    else (last_element path >>= λ e. ok (
        passes (extension_matches (get_file_extension e) f.extension_filter)
          f.invert_extension_filter))

pub regex_condition : AccessFilter → List Bytes → Bool
regex_condition f path = if f.regex_filter_enabled then f.regex_filter (path_string path) else true

unfoldable pub matches : AccessFilter → List Bytes → Result Bool
matches f path =
    if path_condition f path
    then (extension_condition f path >>= λ b. ok (b && regex_condition f path))
    else ok false

-- Unfolding this name opens `matches` and all that it calls, for runs on concrete inputs.
unfoldable pub matches_code : Unit {0}
unfolding matches path_condition path_matches equal_up_to extension_condition last_element
    extension_matches get_file_extension regex_condition path_string beq
matches_code = tt
