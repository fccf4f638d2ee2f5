-- ===== src/Mail/Email/Receive.antt =====
-- How a receiver reads a simple email: the head line by line, and what is behind it.
use nawa.Common.{
  ℕ, zero, suc, ◌≤◌, ◌≡◌, refl, sym, ap, ◌∙◌, Bool, true, false, ◌&&◌, ◌||◌, List, [], ◌∷◌, ◌++◌,
  append_assoc, length, length-append, arith, Bool-cases, All, Bytes, codes, beq, Lacks, is_empty,
  if◌then◌else◌, inl, inr, ◌==◌,
}
use nawa.Util.Encoding.{quoted_printable_decode}
use nawa.Mail.Email.{header_text}

-- A line up to CRLF, and what follows it.
take_line : Bytes → Bytes × Bytes
take_line [] = ([], [])
take_line (c ∷ []) = (c ∷ [], [])
take_line (c ∷ d ∷ s) =
    let (line, rest) = take_line (d ∷ s) in if c == 13 && d == 10 then ([], s) else (c ∷ line, rest)

abbrev pub encoding_line : Bytes
encoding_line = codes "Content-Transfer-Encoding: quoted-printable"

-- The lines of the head up to the empty one; the text behind it is decoded if one of them says so.
pub receive : ℕ → Bool → Bytes → Bytes
unfolding take_line
receive zero encoded s = []
receive (suc fuel) encoded s =
    let (line, rest) = take_line s in
    let more = receive fuel (encoded || beq line encoding_line) rest in
    if is_empty line then (if encoded then quoted_printable_decode rest false else rest) else more

unfoldable pub read_email : Bytes → Bytes
unfolding receive
read_email s = receive (length s) false s

take_line-line :
    (line rest : Bytes) → Lacks 13 line → take_line (line ++ 13 ∷ 10 ∷ rest) ≡ (line, rest)
unfolding take_line
take_line-line [] rest l = refl
take_line-line (c ∷ []) rest l =
    let other : (c == 13) ≡ false = ground (arith, l.0) in rw other refl
take_line-line (c ∷ d ∷ line) rest l =
    let other : (c == 13) ≡ false = ground (arith, l.0) in
    rw (other, take_line-line (d ∷ line) rest l.1) refl

receive-line :
    (fuel : ℕ) (encoded : Bool) (line rest : Bytes)
    → Lacks 13 line
    → is_empty line ≡ false
    → receive (suc fuel) encoded (line ++ 13 ∷ 10 ∷ rest)
      ≡ receive fuel (encoded || beq line encoding_line) rest
unfolding receive
receive-line fuel encoded line rest l filled = rw (take_line-line line rest l, filled) refl

pub receive-body :
    (fuel : ℕ) (encoded : Bool) (body : Bytes)
    → receive (suc fuel) encoded (13 ∷ 10 ∷ body)
      ≡ (if encoded then quoted_printable_decode body false else body)
unfolding receive take_line
receive-body fuel encoded body = refl

abbrev pub header_line : Bytes × Bytes → Bytes
header_line (key, value) = key ++ 58 ∷ 32 ∷ value

filled : (key value : Bytes) → is_empty (header_line (key, value)) ≡ false
filled [] value = refl
filled (c ∷ key) value = refl

-- Whether one of the headers that are sent is the one of the encoding.
pub says : (Bytes → Bool) → List (Bytes × Bytes) → Bool
says own [] = false
says own ((key, value) ∷ headers) =
    let rest = says own headers in
    if own key then rest else beq (header_line (key, value)) encoding_line || rest

-- The receiver comes to a rest of the text with enough fuel, and knows the encoding or not.
abbrev pub Comes : ℕ → Bool → Bytes → Bool → Bytes → Type 0
Comes fuel encoded s encoded' rest =
    (fuel' : ℕ) × (length rest ≤ fuel') × (receive fuel encoded s ≡ receive fuel' encoded' rest)

pub behind_line :
    (fuel : ℕ) (encoded encoded' : Bool) (line s rest : Bytes)
    → Lacks 13 line
    → is_empty line ≡ false
    → length (line ++ 13 ∷ 10 ∷ s) ≤ fuel
    → ((fuel' : ℕ)
        → length s ≤ fuel'
        → Comes fuel' (encoded || beq line encoding_line) s encoded' rest)
    → Comes fuel encoded (line ++ 13 ∷ 10 ∷ s) encoded' rest
behind_line zero encoded encoded' line s rest l filled fits next =
    absurd (omega (arith, fits, length-append line (13 ∷ 10 ∷ s)))
behind_line (suc fuel) encoded encoded' line s rest l filled fits next =
    let (fuel', enough, e) = next fuel (omega (arith, fits, length-append line (13 ∷ 10 ∷ s))) in
    (fuel', enough, receive-line fuel encoded line s l filled ∙ e)

line_shape :
    (key value hs rest : Bytes)
    → (key ++ 58 ∷ 32 ∷ (value ++ 13 ∷ 10 ∷ hs)) ++ rest
      ≡ header_line (key, value) ++ 13 ∷ 10 ∷ (hs ++ rest)
line_shape key value hs rest =
    append_assoc key (58 ∷ 32 ∷ (value ++ 13 ∷ 10 ∷ hs)) rest
    ∙ ap (λ x. key ++ 58 ∷ 32 ∷ x) (append_assoc value (13 ∷ 10 ∷ hs) rest)
    ∙ sym (append_assoc key (58 ∷ 32 ∷ value) (13 ∷ 10 ∷ (hs ++ rest)))

or_assoc : (a b c : Bool) → ((a || b) || c) ≡ (a || (b || c))
or_assoc true b c = refl
or_assoc false b c = refl

pub or_true : (a : Bool) → (a || true) ≡ true
or_true true = refl
or_true false = refl

pub or_false : (a : Bool) → (a || false) ≡ a
or_false true = refl
or_false false = refl

pub behind_headers :
    (own : Bytes → Bool) (headers : List (Bytes × Bytes)) (fuel : ℕ) (encoded : Bool) (rest : Bytes)
    → All (λ h. Lacks 13 (header_line h)) headers
    → length (header_text own headers ++ rest) ≤ fuel
    → Comes fuel encoded (header_text own headers ++ rest) (encoded || says own headers) rest
unfolding header_text says
behind_headers own [] fuel encoded rest l fits =
    (fuel, fits, ap (λ f. receive fuel f rest) (sym (or_false encoded)))
behind_headers own ((key, value) ∷ headers) fuel encoded rest (l, ls) fits =
    elim (Bool-cases (own key)) [
      | inl mine ↦
          rw (mine, header_text, says)
            (behind_headers own headers fuel encoded rest ls (rw (mine, header_text) at fits))
      | inr other ↦
          let shape = line_shape key value (header_text own headers) rest in
          let said = beq (header_line (key, value)) encoding_line in
          rw (other, header_text, says, shape, sym (or_assoc encoded said (says own headers)))
            (behind_line fuel encoded ((encoded || said) || says own headers)
              (header_line (key, value)) (header_text own headers ++ rest) rest l (filled key value)
              (rw (other, header_text, shape) at fits)
              (λ fuel' enough. behind_headers own headers fuel' (encoded || said) rest ls enough))
    ]

pub says-false :
    (own : Bytes → Bool) (headers : List (Bytes × Bytes))
    → All (λ h. beq (header_line h) encoding_line ≡ false) headers
    → says own headers ≡ false
unfolding says
says-false own [] n = refl
says-false own ((key, value) ∷ headers) (n, ns) = elim (Bool-cases (own key)) [
  | inl mine ↦ rw (mine, says) (says-false own headers ns)
  | inr other ↦ rw (other, says, n) (says-false own headers ns)
]
