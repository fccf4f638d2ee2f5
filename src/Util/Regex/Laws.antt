-- ===== src/Util/Regex/Laws.antt =====
-- The loop over tokens replaces every match, from left to right.
use nawa.Common.{
  ℕ, zero, suc, ◌+◌, ◌≤◌, ◌<◌, ◌≡◌, refl, sym, ap, ◌∙◌, true, false, List, [], ◌∷◌, ◌++◌,
  append_assoc, append-nil, none, some, arith, ltb, inl, inr, length, Option-cases, Bytes,
}
use nawa.Util.Regex.{
  Matcher, Found, shift, search, rest_token, tokens, consume, regex_replace_callback,
}

module _ (match_at : Matcher) (marks : ℕ) (fmt : List Bytes → Bytes) where
  -- What the matcher does at the head decides the next step.
  pub replace : ℕ → Bytes → Bytes
  replace zero s = s
  replace (suc fuel) [] = []
  replace (suc fuel) (c ∷ s) = elim (match_at (c ∷ s)) [
    | some (groups, suffix) ↦ fmt groups ++ replace fuel suffix
    | none ↦ c ∷ replace fuel s
  ]

  module _
      (shorter : (s : Bytes) (groups : List Bytes) (suffix : Bytes)
        → match_at s ≡ some (groups, suffix)
        → length suffix < length s)
      (all_marks : (s : Bytes) (groups : List Bytes) (suffix : Bytes)
        → match_at s ≡ some (groups, suffix)
        → length groups ≡ suc marks) where
    replace-fuel : (m n : ℕ) (s : Bytes) → length s ≤ m → length s ≤ n → replace m s ≡ replace n s
    unfolding replace
    replace-fuel zero zero s h k = refl
    replace-fuel zero (suc n) [] h k = refl
    replace-fuel zero (suc n) (c ∷ s) h k = absurd (omega arith)
    replace-fuel (suc m) zero [] h k = refl
    replace-fuel (suc m) zero (c ∷ s) h k = absurd (omega arith)
    replace-fuel (suc m) (suc n) [] h k = refl
    replace-fuel (suc m) (suc n) (c ∷ s) h k = elim (Option-cases (match_at (c ∷ s))) [
      | inl e ↦ rw (e, replace) (ap (◌∷◌ c) (replace-fuel m n s (omega arith) (omega arith)))
      | inr ((groups, suffix), e) ↦
          let l = shorter (c ∷ s) groups suffix e in
          rw (e, replace)
            (ap (◌++◌ (fmt groups)) (replace-fuel m n suffix (omega arith) (omega arith)))
    ]

    consume-groups :
        (groups : List Bytes) (ts : List Bytes) (at : ℕ) (done : List Bytes) (out : Bytes)
        → length groups + at ≡ suc marks
        → 0 < length groups
        → consume marks fmt (groups ++ ts) (suc at) done out
          ≡ consume marks fmt ts 0 [] (out ++ fmt (done ++ groups))
    unfolding consume
    consume-groups [] ts at done out e p = absurd (omega arith)
    consume-groups (g ∷ []) ts at done out e p =
        let last : ltb at marks ≡ false = ground arith in rw (last, consume) refl
    consume-groups (g ∷ h ∷ groups) ts at done out e p =
        let more : ltb at marks ≡ true = ground arith in
        rw (more, consume)
          (consume-groups (h ∷ groups) ts (suc at) (done ++ g ∷ []) out (omega arith) (omega arith)
            ∙ ap (λ d. consume marks fmt ts 0 [] (out ++ fmt d))
                (append_assoc done (g ∷ []) (h ∷ groups)))

    search-none :
        (fuel : ℕ) (s : Bytes) → length s ≤ fuel → search match_at s ≡ none → replace fuel s ≡ s
    unfolding search shift replace
    search-none zero s h e = refl
    search-none (suc fuel) [] h e = refl
    search-none (suc fuel) (c ∷ s) h e = elim (Option-cases (match_at (c ∷ s))) [
      | inr (m, k) ↦ cc (rw (k, search) at e)
      | inl k ↦ elim (Option-cases (search match_at s)) [
        | inr (m, l) ↦ cc (rw (k, l, search, shift) at e)
        | inl l ↦ rw (k, replace) (ap (◌∷◌ c) (search-none fuel s (omega arith) l))
      ]
    ]

    -- What a match that was found says of the replacement.
    abbrev Splits : ℕ → Bytes → Bytes → List Bytes → Bytes → Type 0
    Splits fuel s prefix groups suffix =
        (replace fuel s ≡ prefix ++ (fmt groups ++ replace fuel suffix))
        × (length suffix < length s)
        × (length groups ≡ suc marks)

    search-some :
        (fuel : ℕ) (s prefix : Bytes) (groups : List Bytes) (suffix : Bytes)
        → length s ≤ fuel
        → search match_at s ≡ some (prefix, groups, suffix)
        → Splits fuel s prefix groups suffix
    unfolding search shift replace
    search-some fuel [] prefix groups suffix h e = cc
    search-some zero (c ∷ s) prefix groups suffix h e = absurd (omega arith)
    search-some (suc fuel) (c ∷ s) prefix groups suffix h e =
        elim (Option-cases (match_at (c ∷ s))) [
          | inr ((gs, rest), k) ↦
              let same : ◌≡◌ {A = Found} (some ([], gs, rest)) (some (prefix, groups, suffix)) =
                rw (k, search) at e in
              let p : prefix ≡ [] = cc in
              let q : groups ≡ gs = cc in
              let r : suffix ≡ rest = cc in
              let l = shorter (c ∷ s) gs rest k in
              rw (p, q, r)
                (
                  rw (k, replace)
                      (ap (◌++◌ (fmt gs))
                        (replace-fuel fuel (suc fuel) rest (omega arith) (omega arith))),
                  l,
                  all_marks (c ∷ s) gs rest k,
                )
          | inl k ↦ elim (Option-cases (search match_at s)) [
            | inl l ↦ cc (rw (k, l, search, shift) at e)
            | inr ((before, gs, rest), l) ↦
                let same : ◌≡◌ {A = Found} (some (c ∷ before, gs, rest))
                    (some (prefix, groups, suffix)) =
                  rw (k, l, search, shift) at e in
                let p : prefix ≡ c ∷ before = cc in
                let q : groups ≡ gs = cc in
                let r : suffix ≡ rest = cc in
                let (t, n, m) = search-some fuel s before gs rest (omega arith) l in
                rw (p, q, r)
                  (
                    rw (k, replace)
                        (ap (◌∷◌ c) (
                          t
                          ∙ ap (λ x. before ++ (fmt gs ++ x))
                              (replace-fuel fuel (suc fuel) rest (omega arith) (omega arith)))),
                    omega arith,
                    m,
                  )
          ]
        ]

    consume-rest : (s out : Bytes) → consume marks fmt (rest_token s) 0 [] out ≡ out ++ s
    unfolding consume rest_token
    consume-rest [] out = sym (append-nil out)
    consume-rest (c ∷ s) out = refl

    -- One match: the text before it, and its groups.
    consume-match :
        (prefix : Bytes) (groups ts : List Bytes) (out : Bytes)
        → length groups ≡ suc marks
        → consume marks fmt (prefix ∷ (groups ++ ts)) 0 [] out
          ≡ consume marks fmt ts 0 [] (out ++ (prefix ++ fmt groups))
    unfolding consume
    consume-match prefix groups ts out e =
        consume-groups groups ts 0 [] (out ++ prefix) (omega arith) (omega arith)
        ∙ ap (consume marks fmt ts 0 []) (append_assoc out prefix (fmt groups))

    consume-tokens :
        (fuel : ℕ) (s out : Bytes)
        → length s ≤ fuel
        → consume marks fmt (tokens match_at fuel s) 0 [] out ≡ out ++ replace fuel s
    unfolding tokens replace
    consume-tokens zero s out h = consume-rest s out
    consume-tokens (suc fuel) s out h = elim (Option-cases (search match_at s)) [
      | inl e ↦
          rw (e, tokens) (consume-rest s out ∙ ap (◌++◌ out) (sym (search-none (suc fuel) s h e)))
      | inr ((prefix, groups, suffix), e) ↦
          let (t, n, m) = search-some (suc fuel) s prefix groups suffix h e in
          let refuel = replace-fuel fuel (suc fuel) suffix (omega arith) (omega arith) in
          rw (e, tokens)
            (consume-match prefix groups (tokens match_at fuel suffix) out m
              ∙ consume-tokens fuel suffix (out ++ (prefix ++ fmt groups)) (omega arith)
              ∙ append_assoc out (prefix ++ fmt groups) (replace fuel suffix)
              ∙ ap (◌++◌ out) (
                  append_assoc prefix (fmt groups) (replace fuel suffix)
                  ∙ ap (λ x. prefix ++ (fmt groups ++ x)) refuel
                  ∙ sym t))
    ]

    -- For a pattern whose matches are not empty and have the number of groups that the call names,
    -- the result is the text with each match, from left to right, replaced by what `fmt` makes of
    -- its groups, and all else kept.
    pub regex_replace_callback-replace :
        (s : Bytes) → regex_replace_callback match_at marks fmt s ≡ replace (length s) s
    unfolding regex_replace_callback
    regex_replace_callback-replace s = consume-tokens (length s) s [] (omega arith)

    -- One step at the head of a text: it is kept, or a match is replaced.
    pub regex_replace_callback_kept :
        (c : ℕ) (s : Bytes)
        → match_at (c ∷ s) ≡ none
        → regex_replace_callback match_at marks fmt (c ∷ s)
          ≡ c ∷ regex_replace_callback match_at marks fmt s
    unfolding replace
    regex_replace_callback_kept c s e =
        let first = regex_replace_callback-replace (c ∷ s) in
        let rest = regex_replace_callback-replace s in rw (first, rest) (rw (e, replace) refl)

    pub regex_replace_callback_matched :
        (c : ℕ) (s : Bytes) (groups : List Bytes) (suffix : Bytes)
        → match_at (c ∷ s) ≡ some (groups, suffix)
        → regex_replace_callback match_at marks fmt (c ∷ s)
          ≡ fmt groups ++ regex_replace_callback match_at marks fmt suffix
    unfolding replace
    regex_replace_callback_matched c s groups suffix e =
        let n = shorter (c ∷ s) groups suffix e in
        let refuel = replace-fuel (length s) (length suffix) suffix (omega arith) (omega arith) in
        let first = regex_replace_callback-replace (c ∷ s) in
        let rest = regex_replace_callback-replace suffix in
        rw (first, rest) (rw (e, replace) (ap (◌++◌ (fmt groups)) refuel))
