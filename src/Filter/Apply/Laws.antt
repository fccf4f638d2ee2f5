-- ===== src/Filter/Apply/Laws.antt =====
-- The order in which filters are tried.
use nawa.Common.{
  ℕ, ◌+◌, ◌≡◌, refl, ap, subst, ◌∙◌, true, false, List, [], ◌∷◌, ◌++◌, Option, none, some, arith,
  inl, inr, length, All, Bytes,
}
use nawa.Common.Result.{Result, ok, Result-cases}
use nawa.Request.Env
use nawa.Connection.State.{Connection}
use nawa.Session.Store.{Store}
use nawa.Filter.Types.{AccessFilter, BlockFilter, AccessFilterList}
use nawa.Filter.Apply.{Outside, applies, first_applying, page, answer, apply_filters}

module _ {F : Type 0} (base : F → AccessFilter) (path : List Bytes) where
  abbrev pub Skipped : F → Type 0
  Skipped f = applies (base f) path ≡ ok false

  -- A filter that applies, behind filters that do not.
  abbrev pub FirstAt : ℕ → List F → ℕ → F → Type 0
  FirstAt i fs j f =
      (before : List F) × (after : List F) × (fs ≡ before ++ f ∷ after)
      × (j ≡ i + length before)
      × All Skipped before
      × (applies (base f) path ≡ ok true)

  pub first_applying-none :
      (i : ℕ) (fs : List F) → first_applying base path i fs ≡ ok none → All Skipped fs
  unfolding first_applying
  first_applying-none i [] h = tt
  first_applying-none i (f ∷ fs) h = elim (Result-cases (applies (base f) path)) [
    | inl (true, e) ↦ cc (rw e at h)
    | inl (false, e) ↦ (e, first_applying-none (i + 1) fs (rw e at h))
    | inr (x, e) ↦ cc (rw e at h)
  ]

  pub first_applying-some :
      (i : ℕ) (fs : List F) (j : ℕ) (f : F)
      → first_applying base path i fs ≡ ok (some (j, f))
      → FirstAt i fs j f
  unfolding first_applying
  first_applying-some i [] j f h = cc
  first_applying-some i (g ∷ fs) j f h = elim (Result-cases (applies (base g) path)) [
    | inl (true, e) ↦
        let same : ◌≡◌ {A = Result (Option (ℕ × F))} (ok (some (i, g))) (ok (some (j, f))) =
          rw e at h in
        let p : i ≡ j = cc in
        let q : g ≡ f = cc in
        (
          [],
          fs,
          ap (λ x. x ∷ fs) q,
          omega arith,
          tt,
          subst (λ x. applies (base x) path ≡ ok true) q e,
        )
    | inl (false, e) ↦
        let (before, after, p, q, skipped, now) = first_applying-some (i + 1) fs j f (rw e at h) in
        (g ∷ before, after, ap (◌∷◌ g) p, omega (arith, q), (e, skipped), now)
    | inr (x, e) ↦ cc (rw e at h)
  ]

  pub first_applying-append :
      (i : ℕ) (before : List F) (f : F) (after : List F)
      → All Skipped before
      → applies (base f) path ≡ ok true
      → first_applying base path i (before ++ f ∷ after) ≡ ok (some (i + length before, f))
  unfolding first_applying
  first_applying-append i [] f after skipped now =
      let e : i + 0 ≡ i = omega arith in rw (now, e) refl
  first_applying-append i (g ∷ before) f after skipped now =
      let e : i + length (g ∷ before) ≡ i + 1 + length before = omega arith in
      rw (skipped.0, e) (first_applying-append (i + 1) before f after skipped.1 now)

module _ (o : Outside) (fs : AccessFilterList) (st : Store) (c : Connection) where
  abbrev request_path : List Bytes
  request_path = Env.get_request_path c.request.env

  -- The first block filter that applies answers the request with its status and its response, or the
  -- generated page, whatever other filters there are; sessions are left alone.
  pub apply_filters_blocked :
      (before : List BlockFilter) (f : BlockFilter) (after : List BlockFilter)
      → fs.filters_enabled ≡ true
      → fs.block_filters ≡ before ++ f ∷ after
      → All (Skipped (λ b. b.filter) request_path) before
      → applies f.filter request_path ≡ ok true
      → apply_filters o fs st c ≡ (st, answer f.status (page f.filter.response f.status) c, ok true)
  unfolding apply_filters
  apply_filters_blocked before f after on split skipped now =
      let found =
        ap (first_applying (λ b. b.filter) request_path 0) split
        ∙ first_applying-append (λ b. b.filter) request_path 0 before f after skipped now in
      rw (on, found) refl
