-- ===== src/Connection/Cookies.antt =====
-- No name and no content of a response cookie can end a header line or begin another option.
use nawa.Common.{
  ℕ, ◌↔◌, All, Bool, ◌≡◌, ◌≢◌, refl, subst, true, [], ◌∷◌, Option, some, arith, inl, inr,
  Bool-cases, Bytes, Lacks, beq, beq_iff, beq_refl,
}
use nawa.Common.Table.{text_eq, lookup, assign, lookup-assign, lookup-erase}
use nawa.Common.Result.{ok, err, exception}
use nawa.Connection.State.{Connection, Cookie}
use nawa.Connection.Response.{
  is_key_char, is_content_char, one_of, all_of, set_cookie, unset_cookie,
}

-- A text without line feed, carriage return and semicolon.
abbrev pub IsPlain : Bytes → Type 0
IsPlain s = Lacks 10 s × Lacks 13 s × Lacks b';' s

unfoldable pub HasPlainCookies : Connection → Type 0
HasPlainCookies c =
    (key : Bytes) (cookie : Cookie)
    → lookup key c.cookies ≡ some cookie
    → IsPlain key × IsPlain cookie.content

key_char_plain : (c : ℕ) → is_key_char c ≡ true → (c ≢ 10) × (c ≢ 13) × (c ≢ b';')
unfolding is_key_char one_of
key_char_plain c h = ((λ e. cc (rw e at h)), (λ e. cc (rw e at h)), (λ e. cc (rw e at h)))

content_char_plain : (c : ℕ) → is_content_char c ≡ true → (c ≢ 10) × (c ≢ 13) × (c ≢ b';')
unfolding is_content_char one_of
content_char_plain c h = ((λ e. cc (rw e at h)), (λ e. cc (rw e at h)), (λ e. cc (rw e at h)))

all_of-IsPlain :
    (p : ℕ → Bool)
    → ((c : ℕ) → p c ≡ true → (c ≢ 10) × (c ≢ 13) × (c ≢ b';'))
    → (s : Bytes) → all_of p s ≡ true
    → IsPlain s
unfolding all_of
all_of-IsPlain p each [] h = (tt, tt, tt)
all_of-IsPlain p each (c ∷ s) h =
    let (n, r, m) = each c (ground arith) in
    let (ns, rs, ms) = all_of-IsPlain p each s (ground arith) in ((n, ns), (r, rs), (m, ms))

-- Every character of the name and of the content is in its class.
abbrev pub Allowed : Bytes → Cookie → Type 0
Allowed key cookie =
    All (λ c. is_key_char c ≡ true) key × All (λ c. is_content_char c ≡ true) cookie.content

all_of_allowed : (p : ℕ → Bool) (s : Bytes) → All (λ c. p c ≡ true) s → all_of p s ≡ true
unfolding all_of
all_of_allowed p [] h = refl
all_of_allowed p (c ∷ s) (hc, hs) = rw hc (all_of_allowed p s hs)

allowed_of : (p : ℕ → Bool) (s : Bytes) → all_of p s ≡ true → All (λ c. p c ≡ true) s
unfolding all_of
allowed_of p [] h = tt
allowed_of p (c ∷ s) h = (ground arith, allowed_of p s (ground arith))

assigned-IsPlain :
    (key : Bytes) (cookie : Cookie) (c : Connection)
    → HasPlainCookies c
    → IsPlain key
    → IsPlain cookie.content
    → (j : Bytes) (d : Cookie) → lookup j (assign key cookie c.cookies) ≡ some d
    → IsPlain j × IsPlain d.content
unfolding HasPlainCookies
assigned-IsPlain key cookie c plain name content j d h = elim (Bool-cases (beq key j)) [
  | inl same ↦
      let e = (beq_iff key j).0 same in
      let found : ◌≡◌ {A = Option Cookie} (some cookie) (some d) =
        rw (lookup-assign key j cookie c.cookies, same) at h in
      let f : cookie ≡ d = cc in
      (subst (λ x. IsPlain x) e name, subst (λ (x : Cookie). IsPlain x.content) f content)
  | inr other ↦ plain j d (rw (lookup-assign key j cookie c.cookies, other) at h)
]

erased-IsPlain :
    (key : Bytes) (c : Connection) → HasPlainCookies c → HasPlainCookies (unset_cookie key c)
unfolding HasPlainCookies unset_cookie
erased-IsPlain key c plain j d h = elim (Bool-cases (beq key j)) [
  | inl same ↦ cc (rw (lookup-erase key j c.cookies, same) at h)
  | inr other ↦ plain j d (rw (lookup-erase key j c.cookies, other) at h)
]

assigned :
    (key : Bytes) (cookie : Cookie) (c : Connection)
    → lookup key (assign key cookie c.cookies) ≡ some cookie
assigned key cookie c = rw (lookup-assign key key cookie c.cookies, beq_refl key) refl

-- `setCookie` sets the cookie and returns exactly if all characters of the name and of the content
-- are allowed, and throws exception 1 and changes nothing exactly if one is not; either way, and after
-- `unsetCookie`, the names and contents of all cookies lack line breaks and semicolons if they did
-- before.
pub set_cookie-HasPlainCookies :
    (key : Bytes) (cookie : Cookie) (c : Connection)
    → HasPlainCookies c
    → let (c', r) = set_cookie key cookie c in
      ((r ≡ ok tt) ↔ Allowed key cookie)
      × ((r ≡ err (exception 1)) ↔ (¬ Allowed key cookie))
      × (Allowed key cookie → lookup key c'.cookies ≡ some cookie)
      × ((¬ Allowed key cookie) → c' ≡ c)
      × HasPlainCookies c'
      × HasPlainCookies (unset_cookie key c)
unfolding set_cookie
set_cookie-HasPlainCookies key cookie c plain =
    let erased = erased-IsPlain key c plain in
    elim (Bool-cases (all_of is_key_char key)) [
      | inr refused ↦
          let n : ¬ Allowed key cookie = λ a. cc (all_of_allowed is_key_char key a.0, refused) in
          rw refused (
            ((λ e. cc), (λ a. absurd (n a))),
            ((λ e. n), (λ m. refl)),
            (λ a. absurd (n a)),
            (λ m. refl),
            plain,
            erased,
          )
      | inl name ↦ elim (Bool-cases (all_of is_content_char cookie.content)) [
        | inr refused ↦
            let n : ¬ Allowed key cookie =
              λ a. cc (all_of_allowed is_content_char cookie.content a.1, refused) in
            rw (name, refused)
              (
                ((λ e. cc), (λ a. absurd (n a))),
                ((λ e. n), (λ m. refl)),
                (λ a. absurd (n a)),
                (λ m. refl),
                plain,
                erased,
              )
        | inl content ↦
            let n = all_of-IsPlain is_key_char key_char_plain key name in
            let m = all_of-IsPlain is_content_char content_char_plain cookie.content content in
            let allowed : Allowed key cookie = (
              allowed_of is_key_char key name,
              allowed_of is_content_char cookie.content content,
            ) in
            rw (name, content)
              (
                ((λ e. allowed), (λ a. refl)),
                ((λ e. cc), (λ no. absurd (no allowed))),
                (λ a. assigned key cookie c),
                (λ no. absurd (no allowed)),
                unfold HasPlainCookies in assigned-IsPlain key cookie c plain n m,
                erased,
              )
      ]
    ]
