-- ===== src/Mail/Email/Laws.antt =====
-- A receiver reads the text of a simple email back.
use nawa.Common.{
  ℕ, zero, suc, ◌≤◌, ◌≡◌, refl, sym, ap, subst, ◌∙◌, Bool, true, false, not, ◌&&◌, ◌||◌, List, [],
  ◌∷◌, ◌++◌, append_assoc, length, arith, All, Bytes, codes, beq, Lacks, Option, if◌then◌else◌, inl,
  inr, ◌==◌,
}
use nawa.Common.Result.{ok}
use nawa.Util.Encoding.{quoted_printable_decode, quoted_printable_encode}
use nawa.Util.Encoding.Url.{IsByte}
use nawa.Util.Encoding.QuotedPrintable.{decode-encode}
use nawa.Util.Replace.{ReplacementRules}
use nawa.Mail.MimeEmail.{Draws, replaced}
use nawa.Mail.Email.{simple, simple_head, sets_simple, header_text, get_raw}
use nawa.Mail.Email.Receive.{
  encoding_line, receive, read_email, receive-body, header_line, says, Comes, behind_line, or_true,
  or_false, behind_headers, says-false,
}

lacks : ℕ → Bytes → Bool
lacks c [] = true
lacks c (x ∷ s) = not (x == c) && lacks c s

-- For lines that are written out.
lacks-Lacks : (c : ℕ) (s : Bytes) → lacks c s ≡ true → Lacks c s
unfolding lacks
lacks-Lacks c [] h = tt
lacks-Lacks c (x ∷ s) h = ((λ e. ground (arith, e)), lacks-Lacks c s (ground arith))

abbrev version_line : Bytes
version_line = codes "MIME-Version: 1.0"

at_body :
    (fuel : ℕ) (encoded : Bool) (body : Bytes)
    → length (13 ∷ 10 ∷ body) ≤ fuel
    → receive fuel encoded (13 ∷ 10 ∷ body)
      ≡ (if encoded then quoted_printable_decode body false else body)
at_body zero encoded body fits = absurd (omega (arith, fits))
at_body (suc fuel) encoded body fits = receive-body fuel encoded body

body_of :
    (fuel : ℕ) (encoded encoded' : Bool) (s body : Bytes)
    → Comes fuel encoded s encoded' (13 ∷ 10 ∷ body)
    → receive fuel encoded s ≡ (if encoded' then quoted_printable_decode body false else body)
body_of fuel encoded encoded' s body (fuel', enough, e) = e ∙ at_body fuel' encoded' body enough

not_version : (encoded : Bool) → (encoded || beq version_line encoding_line) ≡ encoded
unfolding beq
not_version encoded = or_false encoded

behind_version :
    (fuel : ℕ) (encoded : Bool) (s rest : Bytes)
    → length (version_line ++ 13 ∷ 10 ∷ s) ≤ fuel
    → (encoded' : Bool) → ((fuel' : ℕ) → length s ≤ fuel' → Comes fuel' encoded s encoded' rest)
    → Comes fuel encoded (version_line ++ 13 ∷ 10 ∷ s) encoded' rest
behind_version fuel encoded s rest fits encoded' next =
    behind_line fuel encoded encoded' version_line s rest
      (lacks-Lacks 13 version_line (unfold lacks in refl)) refl fits
      (λ fuel' enough.
        subst (λ f. Comes fuel' f s encoded' rest) (sym (not_version encoded)) (next fuel' enough))

behind_encoding :
    (fuel : ℕ) (encoded : Bool) (body : Bytes)
    → length (encoding_line ++ 13 ∷ 10 ∷ 13 ∷ 10 ∷ body) ≤ fuel
    → Comes fuel encoded (encoding_line ++ 13 ∷ 10 ∷ 13 ∷ 10 ∷ body) true (13 ∷ 10 ∷ body)
unfolding beq
behind_encoding fuel encoded body fits =
    behind_line fuel encoded true encoding_line (13 ∷ 10 ∷ body) (13 ∷ 10 ∷ body)
      (lacks-Lacks 13 encoding_line (unfold lacks in refl)) refl fits
      (λ fuel' enough.
        (fuel', enough, ap (λ f. receive fuel' f (13 ∷ 10 ∷ body)) (or_true encoded)))

append_assoc_all : (a m c t s : Bytes) → ((((a ++ m) ++ c) ++ t) ++ s) ≡ a ++ (m ++ (c ++ (t ++ s)))
append_assoc_all a m c t s =
    append_assoc ((a ++ m) ++ c) t s
    ∙ append_assoc (a ++ m) c (t ++ s)
    ∙ append_assoc a m (c ++ (t ++ s))

encoded_head :
    (headers : List (Bytes × Bytes)) (body : Bytes)
    → simple_head headers true ++ body
      ≡ header_text (sets_simple true) headers
        ++ (version_line ++ 13 ∷ 10 ∷ (encoding_line ++ 13 ∷ 10 ∷ 13 ∷ 10 ∷ body))
unfolding simple_head
encoded_head headers body =
    append_assoc_all (header_text (sets_simple true) headers) version_line (13 ∷ 10 ∷ [])
      (encoding_line ++ 13 ∷ 10 ∷ 13 ∷ 10 ∷ []) body

plain_head :
    (headers : List (Bytes × Bytes)) (text : Bytes)
    → simple_head headers false ++ text
      ≡ header_text (sets_simple false) headers ++ (version_line ++ 13 ∷ 10 ∷ 13 ∷ 10 ∷ text)
unfolding simple_head
plain_head headers text =
    append_assoc_all (header_text (sets_simple false) headers) version_line (13 ∷ 10 ∷ [])
      (13 ∷ 10 ∷ []) text

-- A simple email, encoded or not, is sent as a text from which a receiver reads the text of the email
-- after the replacements: it takes the lines up to the first empty one for the head, and decodes what
-- is behind them if one of these lines is the header that names the encoding. It is so if the
-- replacements can be made and give a text of bytes, no header has a carriage return, and none is
-- that header itself where the email is not encoded.
pub get_raw-read_email :
    (d : Draws) (headers : List (Bytes × Bytes)) (text text' : Bytes) (encodes : Bool)
    (rules : Option ReplacementRules)
    → replaced rules text ≡ ok text'
    → All IsByte text'
    → All (λ h. Lacks 13 (header_line h)) headers
    → (encodes ≡ false → All (λ h. beq (header_line h) encoding_line ≡ false) headers)
    → (raw : Bytes) × (get_raw d (record { headers = headers; content = simple text encodes }) rules
        ≡ ok raw)
      × (read_email raw ≡ text')
unfolding get_raw read_email
get_raw-read_email d headers text text' true rules made bytes plain named =
    let body = quoted_printable_encode text' (13 ∷ 10 ∷ []) false false in
    let tail = version_line ++ 13 ∷ 10 ∷ (encoding_line ++ 13 ∷ 10 ∷ 13 ∷ 10 ∷ body) in
    let raw = header_text (sets_simple true) headers ++ tail in
    let (fuel, enough, e) =
      behind_headers (sets_simple true) headers (length raw) false tail plain (omega arith) in
    let read =
      behind_version fuel (says (sets_simple true) headers)
        (encoding_line ++ 13 ∷ 10 ∷ 13 ∷ 10 ∷ body) (13 ∷ 10 ∷ body) enough true
        (λ fuel' enough'. behind_encoding fuel' (says (sets_simple true) headers) body enough') in
    (
      raw,
      rw (made, get_raw) (ap ok (encoded_head headers body)),
      e
          ∙ body_of fuel (says (sets_simple true) headers) true tail body read
          ∙ decode-encode text' (13 ∷ 10 ∷ []) false false bytes (inr (inl refl)),
    )
get_raw-read_email d headers text text' false rules made bytes plain named =
    let tail = version_line ++ 13 ∷ 10 ∷ 13 ∷ 10 ∷ text' in
    let raw = header_text (sets_simple false) headers ++ tail in
    let (fuel, enough, e) =
      behind_headers (sets_simple false) headers (length raw) false tail plain (omega arith) in
    let quiet = says-false (sets_simple false) headers (named refl) in
    let read =
      behind_version fuel false (13 ∷ 10 ∷ text') (13 ∷ 10 ∷ text') enough false
        (λ fuel' enough'. (fuel', enough', refl)) in
    (
      raw,
      rw (made, get_raw) (ap ok (plain_head headers text')),
      e ∙ ap (λ f. receive fuel f tail) quiet ∙ body_of fuel false false tail text' read,
    )
