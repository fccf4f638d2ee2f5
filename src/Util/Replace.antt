-- ===== src/Util/Replace.antt =====
-- `stringReplace` with texts, of src/util/utils.cpp.
use nawa.Common.{ℕ, zero, suc, List, [], ◌∷◌, ◌++◌, if◌then◌else◌, length, drop, is_empty, Bytes}
use nawa.Common.Result.{Result, ok, err, unfinished}
use nawa.Util.MimeMultipart.{starts_with}

abbrev pub ReplacementRules : Type 0
ReplacementRules = List (Bytes × Bytes)

-- Every occurrence of a key from the left, not looking into what has been put in. Each round
-- consumes a byte at least, so the length of the text is fuel enough.
unfoldable pub replace_key : ℕ → Bytes → Bytes → Bytes → Bytes
replace_key zero key val s = s
replace_key (suc fuel) key val [] = []
replace_key (suc fuel) key val (c ∷ s) =
    let found = replace_key fuel key val (drop (length key) (c ∷ s)) in
    let kept = replace_key fuel key val s in
    if starts_with key (c ∷ s) then val ++ found else c ∷ kept

-- The rules one after another. An empty key is found everywhere, and the loop does not end.
unfoldable pub string_replace : ReplacementRules → Bytes → Result Bytes
string_replace [] input = ok input
string_replace ((key, val) ∷ patterns) input =
    if is_empty key
    then err unfinished
    else string_replace patterns (replace_key (length input) key val input)
