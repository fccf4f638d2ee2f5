-- ===== src/Filter/Matching/Laws.antt =====
-- Which request paths a path filter stands for.
use nawa.Common.{
  ◌↔◌, ◌⊎◌, subst, is_empty, ◌≡◌, refl, sym, ap, ◌∙◌, Bool, true, false, List, [], ◌∷◌, ◌++◌, arith,
  inl, inr, Bool-cases, ltb, length, length-append, All, Bytes, beq_iff, beq_refl,
}
use nawa.Filter.Types.{AccessFilter}
use nawa.Filter.Matching.{equal_up_to, path_matches, passes, path_condition}

-- A path that begins with the elements of another.
abbrev pub Begins : List Bytes → List Bytes → Type 0
Begins filter path = (rest : List Bytes) × (path ≡ filter ++ rest)

Begins-length :
    (filter path : List Bytes) → Begins filter path → ltb (length path) (length filter) ≡ false
Begins-length filter path (rest, e) = ground (arith, ap length e, length-append filter rest)

equal_up_to-Begins :
    (filter path : List Bytes) → equal_up_to filter path ≡ true → Begins filter path
unfolding equal_up_to
equal_up_to-Begins [] path h = (path, refl)
equal_up_to-Begins (f ∷ filter) [] h = cc
equal_up_to-Begins (f ∷ filter) (e ∷ path) h =
    let (rest, p) = equal_up_to-Begins filter path (ground arith) in
    let q : f ≡ e = (beq_iff f e).0 (ground arith) in
    (rest, ap (λ x. x ∷ path) (sym q) ∙ ap (◌∷◌ f) p)

equal_up_to-append : (filter rest : List Bytes) → equal_up_to filter (filter ++ rest) ≡ true
unfolding equal_up_to
equal_up_to-append [] rest = refl
equal_up_to-append (f ∷ filter) rest = rw (beq_refl f) (equal_up_to-append filter rest)

not-Begins : (filter path : List Bytes) → equal_up_to filter path ≡ false → ¬ Begins filter path
not-Begins filter path h (rest, e) =
    cc (sym (ap (equal_up_to filter) e ∙ equal_up_to-append filter rest) ∙ h)

-- What a list of path filters says of a path.
abbrev pub Says : Bool → List Bytes → List (List Bytes) → Type 0
Says true path filters =
    (before : List (List Bytes)) × (filter : List Bytes) × (after : List (List Bytes)) × (filters
      ≡ before ++ filter ∷ after)
    × Begins filter path
Says false path filters = All (λ filter. ¬ Begins filter path) filters

later :
    (b : Bool) (path filter : List Bytes) (filters : List (List Bytes))
    → ¬ Begins filter path
    → Says b path filters
    → Says b path (filter ∷ filters)
later true path filter filters n (before, f, after, e, begins) =
    (filter ∷ before, f, after, ap (◌∷◌ filter) e, begins)
later false path filter filters n s = (n, s)

-- The length test before the comparison makes no difference.
path_matches-Says :
    (path : List Bytes) (filters : List (List Bytes))
    → Says (path_matches path filters) path filters
unfolding path_matches
path_matches-Says path [] = tt
path_matches-Says path (filter ∷ filters) = elim (Bool-cases (equal_up_to filter path)) [
  | inl same ↦
      let begins = equal_up_to-Begins filter path same in
      rw (Begins-length filter path begins, same) ([], filter, filters, refl, begins)
  | inr differs ↦
      let n = not-Begins filter path differs in
      elim (Bool-cases (ltb (length path) (length filter))) [
        | inl short ↦ rw short (
            later (path_matches path filters) path filter filters n
              (path_matches-Says path filters))
        | inr long ↦
            rw (long, differs)
              (later (path_matches path filters) path filter filters n
                (path_matches-Says path filters))
      ]
]

All-middle :
    (P : List Bytes → Type 0) (before : List (List Bytes)) (filter : List Bytes)
    (after : List (List Bytes))
    → All P (before ++ filter ∷ after)
    → P filter
All-middle P [] filter after h = h.0
All-middle P (x ∷ before) filter after h = All-middle P before filter after h.1

not-Says :
    (path : List Bytes) (filters : List (List Bytes))
    → Says true path filters
    → ¬ Says false path filters
not-Says path filters (before, filter, after, e, begins) none_begins =
    All-middle (λ f. ¬ Begins f path) before filter after
      (subst (All (λ f. ¬ Begins f path)) e none_begins) begins

same_answer :
    (b c : Bool) (path : List Bytes) (filters : List (List Bytes))
    → Says b path filters
    → Says c path filters
    → c ≡ b
same_answer true true path filters h k = refl
same_answer false false path filters h k = refl
same_answer true false path filters h k = absurd (not-Says path filters h k)
same_answer false true path filters h k = absurd (not-Says path filters k h)

Says-path_matches :
    (b : Bool) (path : List Bytes) (filters : List (List Bytes))
    → Says b path filters
    → path_matches path filters ≡ b
Says-path_matches b path filters said =
    same_answer b (path_matches path filters) path filters said (path_matches-Says path filters)

-- What the paths of a filter say, as they are or inverted.
abbrev pub SaysOr : Bool → List Bytes → List (List Bytes) → Type 0
SaysOr invert path filters =
    ((invert ≡ false) × Says true path filters) ⊎ ((invert ≡ true) × Says false path filters)

passes-SaysOr :
    (invert : Bool) (path : List Bytes) (filters : List (List Bytes))
    → passes (path_matches path filters) invert ≡ true
    → SaysOr invert path filters
passes-SaysOr invert path filters h =
    let said = path_matches-Says path filters in
    elim (Bool-cases (path_matches path filters)) [
      | inl m ↦ inl (ground arith, subst (λ b. Says b path filters) m said)
      | inr m ↦ inr (ground arith, subst (λ b. Says b path filters) m said)
    ]

SaysOr-passes :
    (invert : Bool) (path : List Bytes) (filters : List (List Bytes))
    → SaysOr invert path filters
    → passes (path_matches path filters) invert ≡ true
SaysOr-passes invert path filters (inl (i, h)) = rw (i, Says-path_matches true path filters h) refl
SaysOr-passes invert path filters (inr (i, h)) = rw (i, Says-path_matches false path filters h) refl

is_empty_lem : (filters : List (List Bytes)) → is_empty filters ≡ true → filters ≡ []
is_empty_lem [] h = refl
is_empty_lem (f ∷ filters) h = cc

some-SaysOr :
    (invert : Bool) (path : List Bytes) (filters : List (List Bytes))
    → is_empty filters ≡ false
    → (filters ≡ []) ⊎ SaysOr invert path filters
    → SaysOr invert path filters
some-SaysOr invert path filters h (inl e) = cc (ap is_empty e, h)
some-SaysOr invert path filters h (inr said) = said

-- A filter without paths has a path condition that always holds. A filter with paths has one that
-- holds exactly if the request path begins with the elements of one of them, and an inverted filter
-- one that holds exactly if it begins with the elements of none.
pub path_condition-Says :
    (f : AccessFilter) (path : List Bytes)
    → (path_condition f path ≡ true)
      ↔ ((f.path_filter ≡ []) ⊎ SaysOr f.invert_path_filter path f.path_filter)
unfolding path_condition
path_condition-Says f path = elim (Bool-cases (is_empty f.path_filter)) [
  | inl free ↦ ((λ h. inl (is_empty_lem f.path_filter free)), (λ h. rw (free, path_condition) refl))
  | inr given ↦
      rw (given, path_condition)
        (
          (λ h. inr (passes-SaysOr f.invert_path_filter path f.path_filter h)),
          (λ h.
              SaysOr-passes f.invert_path_filter path f.path_filter
                (some-SaysOr f.invert_path_filter path f.path_filter given h)),
        )
]
