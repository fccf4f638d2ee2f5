-- ===== src/Mail/SmtpMailer/Laws.antt =====
-- Which emails are sent, and what queueing does to their headers.
use nawa.Common.{
  ℕ, suc, ◌+◌, ◌≡◌, refl, ap, ◌∙◌, ◌⊎◌, true, false, List, [], ◌∷◌, ◌++◌, some, is_empty, length,
  inl, inr, Bool-cases, Option-cases, Bytes, codes, beq, beq_refl,
}
use nawa.Common.Table.{text_eq, lookup, insert_new, lookup-insert_new}
use nawa.Common.Result.{Result, ok, err, exception, Result-cases, ◌>>=◌}
use nawa.Mail.EmailAddress.{EmailAddress}
use nawa.Mail.SmtpMailer.{
  Clock, Headers, after_last, put_header, has, message_id, add_date, add_from, add_message_id,
  add_missing_headers, QueueElem, SmtpMailer, Emails, Envelope, Curl, envelope,
}

-- A header that is there stays as it is.
abbrev pub Stays : Headers → Headers → Type 0
Stays before after = (j v : Bytes) → lookup j before ≡ some v → lookup j after ≡ some v

abbrev pub Has : Bytes → Headers → Type 0
Has key headers = (v : Bytes) × (lookup key headers ≡ some v)

put_header-Stays :
    (key value : Bytes) (headers : Headers) → Stays headers (put_header key value headers)
put_header-Stays key value headers j v h = lookup-insert_new key j value headers ∙ rw h refl

put_header-Has : (key value : Bytes) (headers : Headers) → Has key (put_header key value headers)
put_header-Has key value headers = elim (Option-cases (lookup key headers)) [
  | inl gone ↦ (value, lookup-insert_new key key value headers ∙ rw (gone, beq_refl key) refl)
  | inr (v, h) ↦ (v, put_header-Stays key value headers key v h)
]

put_header_there :
    (key value : Bytes) (headers : Headers)
    → Has key headers
    → put_header key value headers ≡ headers
unfolding insert_new lookup
put_header_there key value [] (v, h) = cc
put_header_there key value ((j, w) ∷ headers) (v, h) = elim (Bool-cases (beq j key)) [
  | inl same ↦ rw same refl
  | inr other ↦ rw other (ap (◌∷◌ (j, w)) (put_header_there key value headers (v, rw other at h)))
]

add_from-Stays :
    (k : Clock) (from : EmailAddress) (headers : Headers) → Stays headers (add_from k from headers)
unfolding add_from
add_from-Stays k from headers j v h = elim (Bool-cases (is_empty from.address)) [
  | inl nobody ↦ rw nobody h
  | inr named ↦ rw named (put_header-Stays (codes "From") _ headers j v h)
]

add_message_id-Stays :
    (k : Clock) (from : EmailAddress) (headers : Headers)
    → Stays headers (add_message_id k from headers)
unfolding add_message_id
add_message_id-Stays k from headers j v h = elim (Option-cases (after_last b'@' from.address)) [
  | inl no_domain ↦ rw (no_domain, add_message_id) h
  | inr (domain, e) ↦
      rw (e, add_message_id)
        (put_header-Stays (codes "Message-ID") (message_id k from domain) headers j v h)
]

has-Has : (key : Bytes) (headers : Headers) → has key headers ≡ true → Has key headers
unfolding has
has-Has key headers h = elim (Option-cases (lookup key headers)) [
  | inl gone ↦ cc (rw (gone, has) at h)
  | inr found ↦ found
]

Has-has : (key : Bytes) (headers : Headers) → Has key headers → has key headers ≡ true
unfolding has
Has-has key headers (v, h) = rw (h, has) refl

add_date-Dated :
    (k : Clock) (headers dated : Headers)
    → add_date k headers ≡ ok dated
    → Stays headers dated × Has (codes "Date") dated
unfolding add_date
add_date-Dated k headers dated e = elim (Bool-cases (has (codes "Date") headers)) [
  | inl there ↦
      let same : headers ≡ dated = cc (rw (there, add_date) at e) in
      rw (← same) ((λ j w p. p), has-Has (codes "Date") headers there)
  | inr missing ↦ elim (Result-cases k.smtp_time) [
    | inr (x, t) ↦ cc (rw (missing, t, add_date) at e)
    | inl (time, t) ↦
        let same : put_header (codes "Date") time headers ≡ dated =
          cc (rw (missing, t, add_date) at e) in
        rw (← same)
          (put_header-Stays (codes "Date") time headers, put_header-Has (codes "Date") time headers)
  ]
]

-- With a domain in the address, the two other headers are there afterwards, and are kept.
add_from-Has :
    (k : Clock) (from : EmailAddress) (headers : Headers)
    → is_empty from.address ≡ false
    → Has (codes "From") (add_from k from headers)
unfolding add_from
add_from-Has k from headers named = rw named (put_header-Has (codes "From") _ headers)

add_message_id-Has :
    (k : Clock) (from : EmailAddress) (domain : Bytes) (headers : Headers)
    → after_last b'@' from.address ≡ some domain
    → Has (codes "Message-ID") (add_message_id k from headers)
unfolding add_message_id
add_message_id-Has k from domain headers e =
    rw (e, add_message_id) (put_header-Has (codes "Message-ID") (message_id k from domain) headers)

add_date_stays :
    (k : Clock) (headers : Headers) → Has (codes "Date") headers → add_date k headers ≡ ok headers
unfolding add_date
add_date_stays k headers there = rw (Has-has (codes "Date") headers there) refl

add_from_stays :
    (k : Clock) (from : EmailAddress) (headers : Headers)
    → Has (codes "From") headers
    → add_from k from headers ≡ headers
unfolding add_from
add_from_stays k from headers there = elim (Bool-cases (is_empty from.address)) [
  | inl nobody ↦ rw nobody refl
  | inr named ↦ rw named (put_header_there (codes "From") _ headers there)
]

add_message_id_stays :
    (k : Clock) (from : EmailAddress) (headers : Headers)
    → Has (codes "Message-ID") headers
    → add_message_id k from headers ≡ headers
unfolding add_message_id
add_message_id_stays k from headers there = elim (Option-cases (after_last b'@' from.address)) [
  | inl no_domain ↦ rw (no_domain, add_message_id) refl
  | inr (domain, e) ↦
      rw (e, add_message_id)
        (put_header_there (codes "Message-ID") (message_id k from domain) headers there)
]

-- The three headers are there.
abbrev pub Complete : Headers → Type 0
Complete headers =
    Has (codes "Date") headers × Has (codes "From") headers × Has (codes "Message-ID") headers

Complete-add_missing_headers :
    (k : Clock) (from : EmailAddress) (headers : Headers)
    → Complete headers
    → add_missing_headers k from headers ≡ ok headers
unfolding add_missing_headers
Complete-add_missing_headers k from headers (date, sender, id) =
    ap (λ r. r >>= λ dated. ok (add_message_id k from (add_from k from dated)))
      (add_date_stays k headers date)
    ∙ ap (λ h. ok (add_message_id k from h)) (add_from_stays k from headers sender)
    ∙ ap ok (add_message_id_stays k from headers id)

domain-address :
    (address domain : Bytes) → after_last b'@' address ≡ some domain → is_empty address ≡ false
unfolding after_last
domain-address [] domain e = cc
domain-address (c ∷ s) domain e = refl

added_all :
    (k : Clock) (from : EmailAddress) (domain : Bytes) (headers dated : Headers)
    → after_last b'@' from.address ≡ some domain
    → Stays headers dated
    → Has (codes "Date") dated
    → let new = add_message_id k from (add_from k from dated) in Stays headers new × Complete new
added_all k from domain headers dated e stays (t, date) =
    let sent = add_from k from dated in
    let (sender, h) = add_from-Has k from dated (domain-address from.address domain e) in
    let id_stays = add_message_id-Stays k from sent in
    (
      (λ j v p. id_stays j v (add_from-Stays k from dated j v (stays j v p))),
      (
        (t, id_stays (codes "Date") t (add_from-Stays k from dated (codes "Date") t date)),
        (sender, id_stays (codes "From") sender h),
        add_message_id-Has k from domain sent e,
      ),
    )

-- Where the sender's address has a domain, queueing an email gives it a date, a sender and a message
-- ID, and changes no header that it has; once that is done, queueing it again, at any time and from
-- any sender, changes nothing, so that the copies have one message ID.
pub add_missing_headers-Complete :
    (k later : Clock) (from other : EmailAddress) (domain : Bytes) (headers new : Headers)
    → after_last b'@' from.address ≡ some domain
    → add_missing_headers k from headers ≡ ok new
    → Stays headers new × Complete new × (add_missing_headers later other new ≡ ok new)
unfolding add_missing_headers
add_missing_headers-Complete k later from other domain headers new e h =
    elim (Result-cases (add_date k headers)) [
      | inr (x, failed) ↦ cc (rw (failed, add_missing_headers) at h)
      | inl (dated, d) ↦
          let same : add_message_id k from (add_from k from dated) ≡ new =
            cc (rw (d, add_missing_headers) at h) in
          let (stays, date) = add_date-Dated k headers dated d in
          let (kept, complete) = added_all k from domain headers dated e stays date in
          rw (← same) (
            kept,
            complete,
            unfold add_missing_headers in Complete-add_missing_headers later other _ complete,
          )
    ]

-- What the queue is made into, if every text can be made.
unfoldable pub envelopes : Curl → Emails → ℕ → List QueueElem → Result (List Envelope)
envelopes c emails i [] = ok []
envelopes c emails i (q ∷ queue) = envelope c emails i q >>= λ mail.
    (envelopes c emails (suc i) queue >>= λ mails. ok (mail ∷ mails))

abbrev pub Accepted : Curl → ℕ → List Envelope → Type 0
Accepted c i [] = Unit
Accepted c i (mail ∷ mails) = (c.perform i mail ≡ true) × Accepted c (suc i) mails

-- All were sent, or all up to the first that libcurl refused.
abbrev pub Delivered : Curl → ℕ → List Envelope → List Envelope × Result (Unit {0}) → Type 0
Delivered c i mails (sent, r) =
    ((sent ≡ mails) × (r ≡ ok tt) × Accepted c i mails)
    ⊎ ((before : List Envelope) × (mail : Envelope) × (rest : List Envelope) × (mails
          ≡ before ++ mail ∷ rest)
        × (sent ≡ before ++ mail ∷ [])
        × (r ≡ err (exception 1))
        × Accepted c i before
        × (c.perform (i + length before) mail ≡ false))
