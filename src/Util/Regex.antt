-- ===== src/Util/Regex.antt =====
-- `regexReplaceCallback` of src/util/utils.cpp. A std::regex is given by its number of groups and by
-- what it matches at the head of a text: the whole match and its groups, and the text behind it.
-- The library looks for the leftmost match, goes on behind it, and matches are never empty here.
pub mod Laws
use nawa.Common.{
  ℕ, zero, suc, ◌+◌, ◌-◌, List, [], ◌∷◌, ◌++◌, Option, none, some, ltb, ◌==◌, if◌then◌else◌, length,
  Bytes,
}

abbrev pub Matcher : Type 0
Matcher = Bytes → Option (List Bytes × Bytes)

-- The text before a match, the submatches, and the text behind it.
abbrev pub Found : Type 0
Found = Option (Bytes × List Bytes × Bytes)

pub shift : ℕ → Found → Found
shift c none = none
shift c (some (prefix, groups, suffix)) = some (c ∷ prefix, groups, suffix)

pub search : Matcher → Bytes → Found
unfolding shift
search match_at [] = none
search match_at (c ∷ s) =
    let later = search match_at s in
    elim (match_at (c ∷ s)) [
      | some (groups, suffix) ↦ some ([], groups, suffix)
      | none ↦ shift c later
    ]

-- What `sregex_token_iterator` yields for the submatches -1, 0, …: for each match the text before it
-- and its submatches, and at the end the text that is left. The fuel bounds the number of matches.
rest_token : Bytes → List Bytes
rest_token [] = []
rest_token (c ∷ s) = (c ∷ s) ∷ []

pub tokens : Matcher → ℕ → Bytes → List Bytes
unfolding rest_token
tokens match_at zero s = rest_token s
tokens match_at (suc fuel) s = elim (search match_at s) [
  | none ↦ rest_token s
  | some (prefix, groups, suffix) ↦ prefix ∷ (groups ++ tokens match_at fuel suffix)
]

-- The loop over the tokens; `at` is the variable `submatch` plus one.
pub consume : ℕ → (List Bytes → Bytes) → List Bytes → ℕ → List Bytes → Bytes → Bytes
consume marks fmt [] at submatches out = out
consume marks fmt (token ∷ ts) zero submatches out =
    consume marks fmt ts 1 submatches (out ++ token)
consume marks fmt (token ∷ ts) (suc at) submatches out =
    let more = consume marks fmt ts (suc (suc at)) (submatches ++ token ∷ []) out in
    let full = consume marks fmt ts 0 [] (out ++ fmt (submatches ++ token ∷ [])) in
    if ltb at marks then more else full

unfoldable pub regex_replace_callback : Matcher → ℕ → (List Bytes → Bytes) → Bytes → Bytes
unfolding search tokens consume
regex_replace_callback match_at marks fmt s =
    consume marks fmt (tokens match_at (length s) s) 0 [] []
