-- ===== src/Util/Strings/Split.antt =====
-- `splitString`, `splitPath` and `mergePath` against a description by recursion on the text.
use nawa.Common.{
  ℕ, zero, suc, ◌≤◌, ◌≡◌, refl, sym, ap, subst, ◌∙◌, Bool, true, false, List, [], ◌∷◌, ◌++◌,
  append_assoc, append-nil, arith, ltb, ◌==◌, if◌then◌else◌, inl, inr, length, length-append, Bytes,
  Lacks, is_empty, Fits, npos, substr_all, substr_head, substr_tail, find_first_of,
  find_first_of-FirstOf,
}
use nawa.Util.Strings.{add_token, split_loop, split_string}

-- The pieces between delimiters; what follows the last delimiter is a piece unless it is empty.
unfoldable pub push : ℕ → List Bytes → List Bytes
push c [] = (c ∷ []) ∷ []
push c (p ∷ ps) = (c ∷ p) ∷ ps

unfoldable pub pieces : ℕ → Bytes → List Bytes
unfolding push
pieces d [] = []
pieces d (c ∷ s) = let rest = pieces d s in if c == d then [] ∷ rest else push c rest

unfoldable pub non_empty : List Bytes → List Bytes
non_empty [] = []
non_empty ([] ∷ ps) = non_empty ps
non_empty ((c ∷ p) ∷ ps) = (c ∷ p) ∷ non_empty ps

unfoldable pub kept : Bool → List Bytes → List Bytes
unfolding non_empty
kept true ps = non_empty ps
kept false ps = ps

pub pieces-append : (d : ℕ) (t u : Bytes) → Lacks d t → pieces d (t ++ d ∷ u) ≡ t ∷ pieces d u
unfolding pieces
pieces-append d [] u l = ground arith
pieces-append d (c ∷ t) u l = ground (arith, pieces-append d t u l.1)

pub pieces_single : (d c : ℕ) (t : Bytes) → Lacks d (c ∷ t) → pieces d (c ∷ t) ≡ (c ∷ t) ∷ []
unfolding pieces
pieces_single d c [] l = ground arith
pieces_single d c (b ∷ t) l = ground (arith, pieces_single d b t l.1)

add_token-kept :
    (b : Bool) (t : Bytes) (ps ret : List Bytes)
    → add_token b t ret ++ kept b ps ≡ ret ++ kept b (t ∷ ps)
unfolding add_token kept
add_token-kept true [] ps ret = refl
add_token-kept true (c ∷ t) ps ret = append_assoc ret ((c ∷ t) ∷ []) (non_empty ps)
add_token-kept false t ps ret = append_assoc ret (t ∷ []) ps

filled : (t : Bytes) (d : ℕ) (u : Bytes) → is_empty (t ++ d ∷ u) ≡ false
filled [] d u = refl
filled (c ∷ t) d u = refl

-- One round where the delimiter occurs, and the last round.
loop_found :
    (fuel d : ℕ) (b : Bool) (t u : Bytes) (ret : List Bytes)
    → Fits (t ++ d ∷ u)
    → find_first_of d (t ++ d ∷ u) ≡ length t
    → split_loop (suc fuel) (t ++ d ∷ u) d b ret ≡ split_loop fuel u d b (add_token b t ret)
unfolding split_loop
loop_found fuel d b t u ret h e =
    let shorter : ltb (length t) (length (t ++ d ∷ u)) ≡ true =
      ground (arith, length-append t (d ∷ u)) in
    rw (e, shorter, filled t d u, substr_head t (d ∷ u), substr_tail d t u h) refl

loop_last :
    (fuel d c : ℕ) (b : Bool) (s : Bytes) (ret : List Bytes)
    → Fits (c ∷ s)
    → find_first_of d (c ∷ s) ≡ npos
    → split_loop (suc fuel) (c ∷ s) d b ret ≡ add_token b (c ∷ s) ret
unfolding split_loop
loop_last fuel d c b s ret h e =
    let longest : ltb npos (length (c ∷ s)) ≡ false = ground arith in
    rw (e, longest, substr_all (c ∷ s) h) refl

append-kept-nil : (b : Bool) (ret : List Bytes) → ret ++ kept b [] ≡ ret
unfolding kept
append-kept-nil true ret = append-nil ret
append-kept-nil false ret = append-nil ret

split_loop-pieces :
    (fuel : ℕ) (s : Bytes) (d : ℕ) (b : Bool) (ret : List Bytes)
    → length s ≤ fuel
    → Fits s
    → split_loop fuel s d b ret ≡ ret ++ kept b (pieces d s)
split_loop-pieces zero [] d b ret n h = unfold split_loop pieces in sym (append-kept-nil b ret)
split_loop-pieces zero (c ∷ s) d b ret n h = absurd (omega arith)
split_loop-pieces (suc fuel) [] d b ret n h =
    unfold split_loop pieces in sym (append-kept-nil b ret)
split_loop-pieces (suc fuel) (c ∷ s) d b ret n h = elim (find_first_of-FirstOf d (c ∷ s)) [
  | inl (l, e) ↦
      loop_last fuel d c b s ret h e
      ∙ sym (append-kept-nil b _)
      ∙ add_token-kept b (c ∷ s) [] ret
      ∙ ap (λ ps. ret ++ kept b ps) (sym (pieces_single d c s l))
  | inr (t, u, p, l, e) ↦
      let fits : Fits (t ++ d ∷ u) = subst (λ x. Fits x) p h in
      let e' : find_first_of d (t ++ d ∷ u) ≡ length t =
        subst (λ x. find_first_of d x ≡ length t) p e in
      let size = ap length p in
      ap (λ x. split_loop (suc fuel) x d b ret) p
      ∙ loop_found fuel d b t u ret fits e'
      ∙ split_loop-pieces fuel u d b (add_token b t ret)
          (omega (arith, size, length-append t (d ∷ u))) (omega (arith, length-append t (d ∷ u)))
      ∙ add_token-kept b t (pieces d u) ret
      ∙ ap (λ ps. ret ++ kept b ps) (sym (ap (pieces d) p ∙ pieces-append d t u l))
]

-- For every text that fits in memory, `splitString` returns the pieces between the delimiters, in
-- order, without the empty ones if it is asked to ignore them: its loop ends for every input.
pub split_string-pieces :
    (s : Bytes) (d : ℕ) (b : Bool) → Fits s → split_string s d b ≡ kept b (pieces d s)
unfolding split_string
split_string-pieces s d b h = split_loop-pieces (length s) s d b [] (omega arith) h
