-- ===== src/Util/Strings/Paths.antt =====
-- `splitPath` and `mergePath` of src/util/utils.cpp: the path of a request and its elements.
use nawa.Common.{
  ℕ, ◌≤◌, ◌≡◌, ◌≢◌, refl, ap, subst, ◌∙◌, true, List, [], ◌∷◌, ◌++◌, append-nil, arith, ◌==◌, inl,
  inr, length, length-append, All, All-append, Bool-cases, Bytes, Lacks, Fits, substr, substr_all,
  substr_head, find_first_of, find_first_of-FirstOf,
}
use nawa.Util.Strings.{slashed, merge_path, split_path}
use nawa.Util.Strings.Split.{
  push, pieces, non_empty, kept, pieces-append, pieces_single, split_string-pieces,
}

-- An element that a request path can name.
abbrev pub IsElement : Bytes → Type 0
IsElement e = (e ≢ []) × Lacks b'/' e × Lacks b'?' e

push-Lacks : (d c : ℕ) (ps : List Bytes) → c ≢ d → All (Lacks d) ps → All (Lacks d) (push c ps)
unfolding push
push-Lacks d c [] n h = ((n, tt), tt)
push-Lacks d c (p ∷ ps) n h = ((n, h.0), h.1)

-- The pieces hold neither the delimiter nor a byte that the text lacks.
pieces-Lacks : (d : ℕ) (s : Bytes) → All (Lacks d) (pieces d s)
unfolding pieces
pieces-Lacks d [] = tt
pieces-Lacks d (c ∷ s) = elim (Bool-cases (c == d)) [
  | inl hit ↦ rw hit (tt, pieces-Lacks d s)
  | inr miss ↦ rw miss (push-Lacks d c (pieces d s) (ground arith) (pieces-Lacks d s))
]

pieces-Lacks_other : (d q : ℕ) (s : Bytes) → Lacks q s → All (Lacks q) (pieces d s)
unfolding pieces
pieces-Lacks_other d q [] l = tt
pieces-Lacks_other d q (c ∷ s) l = elim (Bool-cases (c == d)) [
  | inl hit ↦ rw hit (tt, pieces-Lacks_other d q s l.1)
  | inr miss ↦ rw miss (push-Lacks q c (pieces d s) l.0 (pieces-Lacks_other d q s l.1))
]

non_empty-IsElement :
    (ps : List Bytes) → All (Lacks b'/') ps → All (Lacks b'?') ps → All IsElement (non_empty ps)
unfolding non_empty
non_empty-IsElement [] h k = tt
non_empty-IsElement ([] ∷ ps) h k = non_empty-IsElement ps h.1 k.1
non_empty-IsElement ((c ∷ p) ∷ ps) h k = (((λ e. cc), h.0, k.0), non_empty-IsElement ps h.1 k.1)

-- The text before the query string, which is the whole text if there is none.
raw_path_lem :
    (s : Bytes)
    → Fits s
    → let raw = substr s 0 (find_first_of b'?' s) in Lacks b'?' raw × (length raw ≤ length s)
raw_path_lem s h = elim (find_first_of-FirstOf b'?' s) [
  | inl (l, e) ↦ rw (e, substr_all s h) (l, omega arith)
  | inr (t, u, p, l, e) ↦
      let q : substr s 0 (find_first_of b'?' s) ≡ t =
        ap (λ n. substr s 0 n) e ∙ ap (λ x. substr x 0 (length t)) p ∙ substr_head t (b'?' ∷ u) in
      rw q (l, omega (arith, ap length p, length-append t (b'?' ∷ u)))
]

-- Every element of a split request path is a non-empty text without slash or question mark, for
-- every text that fits in memory.
pub split_path-IsElement : (s : Bytes) → Fits s → All IsElement (split_path s)
unfolding split_path
split_path-IsElement s h =
    let (l, n) = raw_path_lem s h in
    let raw = substr s 0 (find_first_of b'?' s) in
    rw (split_string-pieces raw b'/' true (omega arith)) (
      unfold kept in
      non_empty-IsElement (pieces b'/' raw) (pieces-Lacks b'/' raw)
        (pieces-Lacks_other b'/' b'?' raw l))

slashed-Lacks : (path : List Bytes) → All IsElement path → Lacks b'?' (slashed path)
unfolding slashed
slashed-Lacks [] h = tt
slashed-Lacks (e ∷ path) h =
    ((ground arith), All-append _ e (slashed path) h.0.2 (slashed-Lacks path h.1))

pieces-slashed :
    (e : Bytes) (path : List Bytes)
    → IsElement e
    → All IsElement path
    → pieces b'/' (e ++ slashed path) ≡ e ∷ path
unfolding slashed
pieces-slashed [] path h k = absurd (h.0 refl)
pieces-slashed (c ∷ e) [] h k = rw (append-nil e) (pieces_single b'/' c e h.1)
pieces-slashed (c ∷ e) (f ∷ path) h k =
    pieces-append b'/' (c ∷ e) (f ++ slashed path) h.1
    ∙ ap (◌∷◌ (c ∷ e)) (pieces-slashed f path k.0 k.1)

non_empty-All : (path : List Bytes) → All IsElement path → non_empty path ≡ path
unfolding non_empty
non_empty-All [] h = refl
non_empty-All ([] ∷ path) h = absurd (h.0.0 refl)
non_empty-All ((c ∷ e) ∷ path) h = ap (◌∷◌ (c ∷ e)) (non_empty-All path h.1)

Lacks-middle : (d : ℕ) (t u : Bytes) → ¬ Lacks d (t ++ d ∷ u)
Lacks-middle d [] u l = l.0 refl
Lacks-middle d (c ∷ t) u l = Lacks-middle d t u l.1

raw_path_all : (s : Bytes) → Fits s → Lacks b'?' s → substr s 0 (find_first_of b'?' s) ≡ s
raw_path_all s h l = elim (find_first_of-FirstOf b'?' s) [
  | inl (_, e) ↦ rw (e, substr_all s h) refl
  | inr (t, u, p, _, _) ↦ absurd (Lacks-middle b'?' t u (subst (λ x. Lacks b'?' x) p l))
]

-- The elements of a path are read back from the merged path, if each is a non-empty text without
-- slash or question mark and the merged text fits in memory.
pub split_path-merge_path :
    (path : List Bytes)
    → All IsElement path
    → Fits (merge_path path)
    → split_path (merge_path path) ≡ path
unfolding split_path merge_path
split_path-merge_path [] h f = refl
split_path-merge_path (e ∷ path) h f =
    let whole = slashed (e ∷ path) in
    rw (raw_path_all whole f (slashed-Lacks (e ∷ path) h), split_string-pieces whole b'/' true f)
      (unfold kept slashed in
        ap non_empty (
          pieces-append b'/' [] (e ++ slashed path) tt
          ∙ ap (◌∷◌ []) (pieces-slashed e path h.0 h.1))
        ∙ unfold non_empty in non_empty-All (e ∷ path) h)
