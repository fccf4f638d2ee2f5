-- ===== src/Util/Queries/RoundTrip.antt =====
-- A query that is put together from names and encoded values is split into them again.
use mathlib.Core.List.{Perm}
use nawa.Common.{
  ℕ, subst, ◌+◌, ◌-◌, ◌/◌, ◌%◌, ◌<◌, ◌≡◌, ◌≢◌, refl, sym, ap, ◌∙◌, true, false, List, [], ◌∷◌, ◌++◌,
  map, arith, ltb, if◌then◌else◌, inl, inr, Bool-cases, length, length-append, All, All-append,
  Bytes, Lacks, Fits, npos, substr, substr_head, substr_tail, find_first_of-none,
  find_first_of-append,
}
use nawa.Util.Strings.Split.{
  kept, non_empty, pieces, pieces-append, pieces_single, split_string-pieces,
}
use nawa.Util.Encoding.{is_unreserved, upper_digit, url_encode, url_decode}
use nawa.Util.Encoding.Url.{IsByte, url_decode-url_encode}
use nawa.Util.Strings.{split_string}
use nawa.Util.Queries.{Arrangement, query_entry, query_part, split_query_string}

-- `name=value`, with the value encoded, and such pairs joined by `&`.
unfoldable pub pair : Bytes × Bytes → Bytes
pair (k, v) = k ++ b'=' ∷ url_encode v

unfoldable pub query : List (Bytes × Bytes) → Bytes
query [] = []
query (e ∷ []) = pair e
query (e ∷ f ∷ es) = pair e ++ b'&' ∷ query (f ∷ es)

-- A name without the three delimiters, and a value of bytes.
abbrev pub IsEntry : Bytes × Bytes → Type 0
IsEntry e = Lacks b'=' e.0 × Lacks b'&' e.0 × Lacks b'?' e.0 × All IsByte e.1

upper_digit-reserved : (b d : ℕ) → is_unreserved b ≡ false → d < 16 → upper_digit d ≢ b
unfolding is_unreserved upper_digit
upper_digit-reserved b d h k = λ e. ground arith

url_encode-Lacks :
    (b : ℕ) (v : Bytes) → is_unreserved b ≡ false → b ≢ b'%' → All IsByte v → Lacks b (url_encode v)
unfolding url_encode
url_encode-Lacks b [] r p h = tt
url_encode-Lacks b (c ∷ v) r p h = elim (Bool-cases (is_unreserved c)) [
  | inl free ↦ rw (free, url_encode) ((λ e. cc), url_encode-Lacks b v r p h.1)
  | inr coded ↦
      rw (coded, url_encode)
        (
          (λ e. p (sym e)),
          (
            upper_digit-reserved b (c / 16) r (omega (arith, h.0)),
            (upper_digit-reserved b (c % 16) r (omega arith), url_encode-Lacks b v r p h.1),
          ),
        )
]

is_reserved : (is_unreserved b'&' ≡ false) × (is_unreserved b'?' ≡ false)
unfolding is_unreserved
is_reserved = (refl, refl)

pair-Lacks :
    (b : ℕ) (e : Bytes × Bytes)
    → Lacks b e.0
    → is_unreserved b ≡ false
    → b ≢ b'%'
    → b ≢ b'='
    → All IsByte e.1
    → Lacks b (pair e)
unfolding pair
pair-Lacks b (k, v) l r p q h =
    All-append (λ c. c ≢ b) k (b'=' ∷ url_encode v) l ((λ e. q (sym e)), url_encode-Lacks b v r p h)

-- Neither `&` nor `?` occurs in a pair.
pair_plain : (e : Bytes × Bytes) → IsEntry e → Lacks b'&' (pair e) × Lacks b'?' (pair e)
pair_plain e (_, ampersand, mark, bytes) = (
  pair-Lacks b'&' e ampersand is_reserved.0 (λ x. omega (arith, x)) (λ x. omega (arith, x)) bytes,
  pair-Lacks b'?' e mark is_reserved.1 (λ x. omega (arith, x)) (λ x. omega (arith, x)) bytes,
)

pieces-pair : (e : Bytes × Bytes) → IsEntry e → pieces b'&' (pair e) ≡ pair e ∷ []
unfolding pair
pieces-pair ([], v) h =
    pieces_single b'&' b'=' (url_encode v) (unfold pair in (pair_plain ([], v) h).0)
pieces-pair (c ∷ k, v) h =
    pieces_single b'&' c (k ++ b'=' ∷ url_encode v) (unfold pair in (pair_plain (c ∷ k, v) h).0)

pieces-query : (es : List (Bytes × Bytes)) → All IsEntry es → pieces b'&' (query es) ≡ map pair es
unfolding query
pieces-query [] h = unfold pieces in refl
pieces-query (e ∷ []) h = pieces-pair e h.0
pieces-query (e ∷ f ∷ es) h =
    pieces-append b'&' (pair e) (query (f ∷ es)) (pair_plain e h.0).0
    ∙ ap (◌∷◌ (pair e)) (pieces-query (f ∷ es) h.1)

non_empty-pairs : (es : List (Bytes × Bytes)) → non_empty (map pair es) ≡ map pair es
unfolding non_empty pair
non_empty-pairs [] = refl
non_empty-pairs (([], v) ∷ es) = ap (◌∷◌ (pair ([], v))) (non_empty-pairs es)
non_empty-pairs ((c ∷ k, v) ∷ es) = ap (◌∷◌ (pair (c ∷ k, v))) (non_empty-pairs es)

query-Lacks : (es : List (Bytes × Bytes)) → All IsEntry es → Lacks b'?' (query es)
unfolding query
query-Lacks [] h = tt
query-Lacks (e ∷ []) h = (pair_plain e h.0).1
query-Lacks (e ∷ f ∷ es) h =
    All-append (λ c. c ≢ b'?') (pair e) (b'&' ∷ query (f ∷ es)) (pair_plain e h.0).1
      ((λ x. omega (arith, x)), query-Lacks (f ∷ es) h.1)

encoded_filled : (c : ℕ) (v : Bytes) → 0 < length (url_encode (c ∷ v))
unfolding url_encode
encoded_filled c v = elim (Bool-cases (is_unreserved c)) [
  | inl free ↦ rw free (omega arith)
  | inr coded ↦ rw coded (omega arith)
]

-- The value is read where a byte follows the equals sign, and is empty else.
entry_value :
    (k v : Bytes)
    → Fits (k ++ b'=' ∷ url_encode v)
    → All IsByte v
    → (if ltb (length k) (length (k ++ b'=' ∷ url_encode v) - 1)
        then url_decode (substr (k ++ b'=' ∷ url_encode v) (length k + 1) npos)
        else [])
      ≡ v
entry_value k [] fits h =
    unfold url_encode in
    (let size = length-append k (b'=' ∷ []) in
      let none_left : ltb (length k) (length (k ++ b'=' ∷ []) - 1) ≡ false = ground (arith, size) in
      rw none_left refl)
entry_value k (c ∷ v) fits h =
    let code = url_encode (c ∷ v) in
    let some_left : ltb (length k) (length (k ++ b'=' ∷ code) - 1) ≡ true =
      ground (arith, length-append k (b'=' ∷ code), encoded_filled c v) in
    rw (some_left, substr_tail b'=' k code fits) (url_decode-url_encode (c ∷ v) h)

query_entry-pair : (e : Bytes × Bytes) → IsEntry e → Fits (pair e) → query_entry (pair e) ≡ e
unfolding query_entry pair
query_entry-pair (k, v) h fits =
    rw (find_first_of-append b'=' k (url_encode v) h.0, substr_head k (b'=' ∷ url_encode v))
      (ap (λ x. (k, x)) (entry_value k v fits h.3))

entries :
    (es : List (Bytes × Bytes))
    → All IsEntry es
    → Fits (query es)
    → map query_entry (map pair es) ≡ es
unfolding query
entries [] h fits = refl
entries (e ∷ []) h fits = ap (λ x. x ∷ []) (query_entry-pair e h.0 fits)
entries (e ∷ f ∷ es) h fits =
    let size = length-append (pair e) (b'&' ∷ query (f ∷ es)) in
    ap (λ x. x ∷ map query_entry (map pair (f ∷ es))) (query_entry-pair e h.0 (omega (arith, size)))
    ∙ ap (◌∷◌ e) (entries (f ∷ es) h.1 (omega (arith, size)))

query_part_all : (s : Bytes) → Lacks b'?' s → query_part s ≡ s
unfolding query_part
query_part_all s l = rw (find_first_of-none b'?' s l) refl

-- From a query of names and URL-encoded values, joined by equals signs and ampersands, exactly these
-- names and values are read, each as often as it stands in the query and in any order, if no name has
-- a delimiter, the query fits in memory, and the hash table only rearranges its elements.
pub split_query_string-query :
    (arrange : Arrangement) (es : List (Bytes × Bytes))
    → ((inserted : List (Bytes × Bytes)) → Perm (arrange inserted) inserted)
    → All IsEntry es
    → Fits (query es)
    → Perm (split_query_string arrange (query es)) es
unfolding split_query_string
split_query_string-query arrange es rearranges h fits =
    let read : map query_entry (split_string (query_part (query es)) b'&' true) ≡ es =
      rw
        (
          query_part_all (query es) (query-Lacks es h),
          split_string-pieces (query es) b'&' true fits,
          pieces-query es h,
        )
        (unfold kept in ap (map query_entry) (non_empty-pairs es) ∙ entries es h fits) in
    subst (Perm (arrange (map query_entry (split_string (query_part (query es)) b'&' true)))) read
      (rearranges (map query_entry (split_string (query_part (query es)) b'&' true)))
