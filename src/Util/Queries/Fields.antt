-- ===== src/Util/Queries/Fields.antt =====
-- How a header line and a cookie are taken apart.
use nawa.Common.{
  ℕ, ◌+◌, ◌%◌, ◌≡◌, ◌≢◌, refl, true, false, [], ◌∷◌, ◌++◌, none, some, arith, ltb, length,
  length-append, Bytes, Lacks, Fits, npos, substr_all, substr_head, substr_tail, find_first_of-none,
  find_first_of-append,
}
use nawa.Common.Number.{u64}
use nawa.Util.Queries.{field}

split_field :
    (separator : ℕ) (key value : Bytes)
    → Lacks separator key
    → Fits (key ++ separator ∷ value)
    → field separator (key ++ separator ∷ value)
      ≡ elim value [ [] ↦ none | c ∷ rest ↦ some (key, c ∷ rest) ]
unfolding field
split_field separator key [] lacks fits =
    let size = length-append key (separator ∷ []) in
    let end : (length key + 2) % u64 ≡ length key + 2 = omega (arith, size) in
    let over : ltb (length (key ++ separator ∷ [])) (length key + 2) ≡ true =
      ground (arith, size) in
    rw (find_first_of-append separator key [] lacks, end, over) refl
split_field separator key (c ∷ rest) lacks fits =
    let size = length-append key (separator ∷ c ∷ rest) in
    let end : (length key + 2) % u64 ≡ length key + 2 = omega (arith, size) in
    let next : (length key + 1) % u64 ≡ length key + 1 = omega (arith, size) in
    let under : ltb (length (key ++ separator ∷ c ∷ rest)) (length key + 2) ≡ false =
      ground (arith, size) in
    rw
      (
        find_first_of-append separator key (c ∷ rest) lacks,
        end,
        next,
        under,
        substr_head key (separator ∷ c ∷ rest),
        substr_tail separator key (c ∷ rest) fits,
      )
      refl

whole_field :
    (separator : ℕ) (text : Bytes)
    → text ≢ []
    → Lacks separator text
    → Fits text
    → field separator text ≡ some (text, text)
unfolding field
whole_field separator [] filled absent small = absurd (filled refl)
whole_field separator (c ∷ rest) filled absent small =
    let text = c ∷ rest in
    let end : (npos + 2) % u64 ≡ 1 = omega arith in
    let next : (npos + 1) % u64 ≡ 0 = omega arith in
    let under : ltb (length text) 1 ≡ false = ground arith in
    rw (find_first_of-none separator text absent, end, next, under, substr_all text small) refl

-- At the first separator a text is a key and a value. It is left out if nothing follows the
-- separator. A text that is not empty and has no separator is not left out: the whole text is the
-- key and the value.
pub field_lem :
    (separator : ℕ) (key value text : Bytes)
    → Lacks separator key
    → Fits (key ++ separator ∷ value)
    → text ≢ []
    → Lacks separator text
    → Fits text
    → (field separator (key ++ separator ∷ value)
        ≡ elim value [ [] ↦ none | c ∷ rest ↦ some (key, c ∷ rest) ])
      × (field separator text ≡ some (text, text))
field_lem separator key value text lacks fits filled absent small =
    (split_field separator key value lacks fits, whole_field separator text filled absent small)
