-- ===== src/Common/Text.antt =====
-- std::string as its bytes, with the operations of the standard library that the sources call.
use Prim.Native.Char.{code}
use Prim.Native.Nat.{ℕ, suc, ◌+◌, ◌-◌, ◌^◌, ◌<◌}
use Prim.Native.String.{String}
use mathlib.Core.Bool.{Bool, true, false, ◌&&◌}
use mathlib.Core.List.{List, [], ◌∷◌, ◌++◌}
use mathlib.Core.Logic.{◌≢◌, ◌↔◌, ◌⊎◌, inl, inr}
use mathlib.Core.Option
use mathlib.Core.Option.{Option, none, some}
use mathlib.Core.Path.{◌≡◌, refl, ap}
use native.Mathlib.Omega.{arith}
use nawa.Common.Tests.{◌==◌, if◌then◌else◌, Bool-cases, ==_iff, ==_refl}
use nawa.Common.Lists.{length, take, drop, take_all, take-append, length-append, All}

abbrev pub Bytes : Type 0
Bytes = List ℕ

-- The code points of a literal, which are its bytes where it is ASCII.
abbrev pub codes : String → Bytes
codes String.[] = []
codes (String.◌∷◌ c s) = code c ∷ codes s

abbrev pub Lacks : ℕ → Bytes → Type 0
Lacks b = All (λ c. c ≢ b)

abbrev pub is_empty {ℓ} : {A : Type ℓ} → List A → Bool
is_empty [] = true
is_empty (x ∷ xs) = false

-- `operator==` on strings.
unfoldable pub beq : Bytes → Bytes → Bool
beq [] [] = true
beq [] (y ∷ ys) = false
beq (x ∷ xs) [] = false
beq (x ∷ xs) (y ∷ ys) = (x == y) && beq xs ys

beq_sound : (s t : Bytes) → beq s t ≡ true → s ≡ t
unfolding beq
beq_sound [] [] h = refl
beq_sound [] (y ∷ ys) h = cc
beq_sound (x ∷ xs) [] h = cc
beq_sound (x ∷ xs) (y ∷ ys) h = ground (arith, beq_sound xs ys)

pub beq_refl : (s : Bytes) → beq s s ≡ true
unfolding beq
beq_refl [] = refl
beq_refl (x ∷ xs) = ground (arith, beq_refl xs)

pub beq_iff : (s t : Bytes) → (beq s t ≡ true) ↔ (s ≡ t)
beq_iff s t = (beq_sound s t, λ e. rw e (beq_refl t))

-- `std::string::npos`, the largest size_t.
abbrev pub npos : ℕ
npos = 2 ^ 64 - 1

-- What every string in memory satisfies: `std::string::max_size()` is below 2^63.
abbrev pub Fits : Bytes → Type 0
Fits s = length s < 2 ^ 63

index_of : ℕ → Bytes → Option ℕ
index_of c [] = none
index_of c (x ∷ xs) = if x == c then some 0 else Option.map suc (index_of c xs)

or_npos : Option ℕ → ℕ
or_npos none = npos
or_npos (some i) = i

-- `s.find_first_of(c)`.
unfoldable pub find_first_of : ℕ → Bytes → ℕ
unfolding index_of or_npos
find_first_of c s = or_npos (index_of c s)

-- `s.substr(pos, n)`. Past the end the library throws, and no call that is modelled goes there.
unfoldable pub substr : Bytes → ℕ → ℕ → Bytes
substr s pos n = take n (drop pos s)

pub substr_all : (s : Bytes) → Fits s → substr s 0 npos ≡ s
unfolding substr
substr_all s h = take_all npos s (omega arith)

pub substr_head : (t u : Bytes) → substr (t ++ u) 0 (length t) ≡ t
unfolding substr
substr_head t u = take-append t u

drop_past : (c : ℕ) (t u : Bytes) → drop (length t + 1) (t ++ c ∷ u) ≡ u
drop_past c [] u = refl
drop_past c (x ∷ t) u =
    let e : length (x ∷ t) + 1 ≡ suc (length t + 1) = omega arith in rw e (drop_past c t u)

pub substr_tail :
    (c : ℕ) (t u : Bytes) → Fits (t ++ c ∷ u) → substr (t ++ c ∷ u) (length t + 1) npos ≡ u
unfolding substr
substr_tail c t u h =
    rw (drop_past c t u) (take_all npos u (omega (arith, length-append t (c ∷ u))))

-- A text lacks a byte, or splits at its first occurrence.
abbrev pub FirstOf : ℕ → Bytes → ℕ → ℕ → Type 0
FirstOf c s miss at =
    (Lacks c s × (at ≡ miss))
    ⊎ ((t : Bytes) × (u : Bytes) × (s ≡ t ++ c ∷ u) × Lacks c t × (at ≡ length t))

abbrev Indexed : ℕ → Bytes → Option ℕ → Type 0
Indexed c s o =
    (Lacks c s × (o ≡ none))
    ⊎ ((t : Bytes) × (u : Bytes) × (s ≡ t ++ c ∷ u) × Lacks c t × (o ≡ some (length t)))

index_of-Indexed : (c : ℕ) (s : Bytes) → Indexed c s (index_of c s)
unfolding index_of
index_of-Indexed c [] = inl (tt, refl)
index_of-Indexed c (x ∷ s) = elim (Bool-cases (x == c)) [
  | inl hit ↦ inr ([], s, ap (λ y. y ∷ s) ((==_iff x c).0 hit), tt, rw hit refl)
  | inr miss ↦ elim (index_of-Indexed c s) [
    | inl (l, e) ↦ inl ((ground arith, l), rw (miss, e) refl)
    | inr (t, u, e, l, f) ↦ inr (x ∷ t, u, ap (◌∷◌ x) e, (ground arith, l), rw (miss, f) refl)
  ]
]

pub find_first_of-FirstOf : (c : ℕ) (s : Bytes) → FirstOf c s npos (find_first_of c s)
unfolding find_first_of
find_first_of-FirstOf c s = elim (index_of-Indexed c s) [
  | inl (l, e) ↦ inl (l, rw e refl)
  | inr (t, u, e, l, f) ↦ inr (t, u, e, l, rw f refl)
]

index_of-none : (c : ℕ) (s : Bytes) → Lacks c s → index_of c s ≡ none
unfolding index_of
index_of-none c [] l = refl
index_of-none c (x ∷ s) l =
    let miss : (x == c) ≡ false = ground arith in rw (miss, index_of-none c s l.1) refl

index_of-append : (c : ℕ) (t u : Bytes) → Lacks c t → index_of c (t ++ c ∷ u) ≡ some (length t)
unfolding index_of
index_of-append c [] u l = rw (==_refl c) refl
index_of-append c (x ∷ t) u l =
    let miss : (x == c) ≡ false = ground arith in rw (miss, index_of-append c t u l.1) refl

pub find_first_of-none : (c : ℕ) (s : Bytes) → Lacks c s → find_first_of c s ≡ npos
unfolding find_first_of
find_first_of-none c s l = rw (index_of-none c s l) refl

pub find_first_of-append :
    (c : ℕ) (t u : Bytes) → Lacks c t → find_first_of c (t ++ c ∷ u) ≡ length t
unfolding find_first_of
find_first_of-append c t u l = rw (index_of-append c t u l) refl
