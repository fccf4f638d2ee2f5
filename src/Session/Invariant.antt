-- ===== src/Session/Invariant.antt =====
-- What the session table keeps: distinct IDs, valid pointers, and no two IDs with one session.
use nawa.Common.{
  ℕ, ◌<◌, ◌≡◌, refl, sym, subst, ◌∙◌, Bool, List, Option, none, some, arith, inl, inr, Bool-cases,
  Bytes, beq, beq_iff,
}
use nawa.Common.Table.{
  text_eq, lookup, lookup-assign, lookup-erase, lookup-erase_if, unless, Distinct, Distinct-assign,
  Distinct-erase, Distinct-erase_if, erase, erase_if,
}
use nawa.Session.Store.{Store, set_expires, remove, create, is_expired, collect_garbage}

pub record Valid (st : Store) : Type 0 where
  pub distinct : Distinct st.session_data
  pub below : (id : Bytes) (p : ℕ) → lookup id st.session_data ≡ some p → p < st.next
  pub single :
      (id other : Bytes) (p : ℕ)
      → lookup id st.session_data ≡ some p
      → lookup other st.session_data ≡ some p
      → id ≡ other

-- A table with fewer entries is as good.
abbrev pub Fewer : List (Bytes × ℕ) → List (Bytes × ℕ) → Type 0
Fewer small large = (id : Bytes) (p : ℕ) → lookup id small ≡ some p → lookup id large ≡ some p

Valid-Fewer :
    (st new : Store)
    → new.next ≡ st.next
    → Distinct new.session_data
    → Fewer new.session_data st.session_data
    → Valid st
    → Valid new
Valid-Fewer st new e d f v = record {
  distinct = d;
  below = λ id p h. subst (λ n. p < n) (sym e) (v.below id p (f id p h));
  single = λ id other p h k. v.single id other p (f id p h) (f other p k);
}

pub erase-Fewer : (id : Bytes) (m : List (Bytes × ℕ)) → Fewer (erase id m) m
erase-Fewer id m j p h = elim (Bool-cases (beq id j)) [
  | inl same ↦ cc (rw (lookup-erase id j m, same) at h)
  | inr other ↦ rw (lookup-erase id j m, other) at h
]

unless-some :
    (q : Bytes → ℕ → Bool) (id : Bytes) (o : Option ℕ) {p : ℕ} → unless q id o ≡ some p → o ≡ some p
unless-some q id none h = h
unless-some q id (some v) h = ground arith

pub erase_if-Fewer :
    (q : Bytes → ℕ → Bool) (m : List (Bytes × ℕ)) → Distinct m → Fewer (erase_if q m) m
erase_if-Fewer q m d id p h = unless-some q id (lookup id m) (sym (lookup-erase_if q id m d) ∙ h)

pub remove-Valid : (id : Bytes) {st : Store} → Valid st → Valid (remove id st)
unfolding remove
remove-Valid id {st} v =
    Valid-Fewer st (remove id st) refl (Distinct-erase id st.session_data v.distinct)
      (erase-Fewer id st.session_data) v

pub collect_garbage-Valid : (now : ℕ) {st : Store} → Valid st → Valid (collect_garbage now st)
unfolding collect_garbage
collect_garbage-Valid now {st} v =
    let q = is_expired st.objects now in
    Valid-Fewer st (collect_garbage now st) refl (Distinct-erase_if q st.session_data v.distinct)
      (erase_if-Fewer q st.session_data v.distinct) v

pub set_expires-Valid : (p t : ℕ) {st : Store} → Valid st → Valid (set_expires p t st)
unfolding set_expires
set_expires-Valid p t v = record { distinct = v.distinct; below = v.below; single = v.single }

-- A new session goes under an unused ID and gets the next pointer.
pub create-Valid :
    (id ip : Bytes) (t : ℕ) {st : Store}
    → lookup id st.session_data ≡ none
    → Valid st
    → Valid (create id ip t st)
unfolding create
create-Valid id ip t {st} unused v = record {
  distinct = Distinct-assign id st.next st.session_data v.distinct;
  below = λ j p h. grind (arith, lookup-assign id j st.next st.session_data, v.below j p);
  single = λ i j p h k. ground (
    arith,
    lookup-assign id i st.next st.session_data,
    lookup-assign id j st.next st.session_data,
    beq_iff id i,
    beq_iff id j,
    v.below i p,
    v.below j p,
    v.single i j p,
  );
}
