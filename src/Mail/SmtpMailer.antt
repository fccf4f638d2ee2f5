-- ===== src/Mail/SmtpMailer.antt =====
-- src/mail/SmtpMailer.cpp: the queue of emails and its delivery by libcurl.
pub mod Laws
use nawa.Common.{
  ℕ, suc, ◌+◌, Bool, true, false, not, ◌&&◌, ◌||◌, List, [], ◌∷◌, ◌++◌, map, Option, none, some,
  ◌==◌, if◌then◌else◌, is_empty, Bytes, codes,
}
use nawa.Common.Table.{text_eq, lookup, insert_new}
use nawa.Common.Result.{Result, ok, err, ◌>>=◌, exception}
use nawa.Common.Number.{to_string}
use nawa.Util.Replace.{ReplacementRules}
use nawa.Mail.EmailAddress.{EmailAddress}
use nawa.Mail.EmailAddress
use nawa.Mail.MimeEmail.{Draws}
use nawa.Mail.Email.{Email, get_raw}

-- The time as an email has it, which may be an exception, the clock, a random number, MD5 in
-- hexadecimal, and the encoder of punycode.
pub record Clock : Type 0 where
  pub smtp_time : Result Bytes
  pub seconds : ℕ
  pub nanoseconds : ℕ
  pub random : ℕ
  pub md5 : Bytes → Bytes
  pub punycode_encode : Bytes → Bytes

abbrev pub Headers : Type 0
Headers = List (Bytes × Bytes)

-- What follows the last occurrence of a byte.
unfoldable pub after_last : ℕ → Bytes → Option Bytes
after_last c [] = none
after_last c (x ∷ s) = elim (after_last c s) [
  | some t ↦ some t
  | none ↦ if x == c then some s else none
]

unfoldable pub has : Bytes → Headers → Bool
has key headers = elim (lookup key headers) [ some v ↦ true | none ↦ false ]

-- `if (!headers.count(key)) headers[key] = value`.
abbrev pub put_header : Bytes → Bytes → Headers → Headers
put_header key value headers = insert_new key value headers

unfoldable pub message_id : Clock → EmailAddress → Bytes → Bytes
message_id k from domain =
    let base =
      to_string k.seconds ++ to_string k.nanoseconds ++ from.address ++ to_string k.random in
    b'<' ∷ (k.md5 base ++ b'@' ∷ (domain ++ b'>' ∷ []))

unfoldable pub add_date : Clock → Headers → Result Headers
add_date k headers =
    if has (codes "Date") headers
    then ok headers
    else k.smtp_time >>= λ t. ok (put_header (codes "Date") t headers)

unfoldable pub add_from : Clock → EmailAddress → Headers → Headers
add_from k from headers =
    if is_empty from.address
    then headers
    else put_header (codes "From") (EmailAddress.get k.punycode_encode from true true) headers

unfoldable pub add_message_id : Clock → EmailAddress → Headers → Headers
add_message_id k from headers = elim (after_last b'@' from.address) [
  | none ↦ headers
  | some domain ↦ put_header (codes "Message-ID") (message_id k from domain) headers
]

unfoldable pub add_missing_headers : Clock → EmailAddress → Headers → Result Headers
add_missing_headers k from headers =
    add_date k headers >>= λ dated. ok (add_message_id k from (add_from k from dated))

pub data TlsMode : Type 0 where
  plain smtps try_starttls require_starttls : TlsMode

-- An element points to its email, which may be queued several times.
pub record QueueElem : Type 0 where
  pub email : ℕ
  pub from : EmailAddress
  pub recipients : List EmailAddress
  pub replacement_rules : Option ReplacementRules

pub record SmtpMailer : Type 0 where
  pub server_domain : Bytes
  pub server_port : ℕ
  pub server_tls_mode : TlsMode
  pub verify_server_tls_cert : Bool
  pub auth_username : Bytes
  pub auth_password : Bytes
  pub connection_timeout : ℕ
  pub queue : List QueueElem

unfoldable pub set_server : Bytes → ℕ → TlsMode → Bool → SmtpMailer → SmtpMailer
set_server domain port mode verify m = record m {
  server_domain = domain;
  server_port = port;
  server_tls_mode = mode;
  verify_server_tls_cert = verify;
}

unfoldable pub set_auth : Bytes → Bytes → SmtpMailer → SmtpMailer
set_auth username password m = record m { auth_username = username; auth_password = password }

unfoldable pub set_connection_timeout : ℕ → SmtpMailer → SmtpMailer
set_connection_timeout timeout m = record m { connection_timeout = timeout }

-- The emails behind the pointers.
abbrev pub Emails : Type 0
Emails = ℕ → Email

unfoldable pub set_headers : ℕ → Headers → Emails → Emails
set_headers p headers emails i =
    if i == p then record (emails p) { headers = headers } else emails i

-- The headers of the email are completed where it is, and it is queued behind the others.
unfoldable pub bulk_enqueue :
    Clock → QueueElem → Emails → SmtpMailer → Emails × SmtpMailer × Result (Unit {0})
bulk_enqueue k q emails m = elim (add_missing_headers k q.from ((emails q.email).headers)) [
  | err e ↦ (emails, m, err e)
  | ok headers ↦ (set_headers q.email headers emails, record m { queue = m.queue ++ q ∷ [] }, ok tt)
]

unfoldable pub enqueue :
    Clock
    → ℕ
    → EmailAddress
    → EmailAddress
    → Option ReplacementRules
    → Emails
    → SmtpMailer
    → Emails × SmtpMailer × Result (Unit {0})
enqueue k email to from rules emails m =
    bulk_enqueue k
      (record { email = email; from = from; recipients = to ∷ []; replacement_rules = rules })
      emails m

unfoldable pub clear_queue : SmtpMailer → SmtpMailer
clear_queue m = record m { queue = [] }

-- What a transfer of libcurl is told for one email.
pub record Envelope : Type 0 where
  pub mail_from : Bytes
  pub mail_rcpt : List Bytes
  pub payload : Bytes

-- The options of all transfers. TLS is not asked for, tried or required.
pub data UseSsl : Type 0 where
  ssl_none ssl_try ssl_all : UseSsl

pub record Options : Type 0 where
  pub username : Option Bytes
  pub password : Option Bytes
  pub url : Bytes
  pub use_ssl : UseSsl
  pub verify : Bool
  pub timeout : ℕ

is_smtps : TlsMode → Bool
is_smtps plain = false
is_smtps smtps = true
is_smtps try_starttls = false
is_smtps require_starttls = false

is_plain : TlsMode → Bool
is_plain plain = true
is_plain smtps = false
is_plain try_starttls = false
is_plain require_starttls = false

ssl_of : TlsMode → UseSsl
ssl_of plain = ssl_none
ssl_of smtps = ssl_none
ssl_of try_starttls = ssl_try
ssl_of require_starttls = ssl_all

unfoldable pub options : SmtpMailer → Options
unfolding is_smtps is_plain ssl_of
options m = record {
  username = if is_empty m.auth_username then none else some m.auth_username;
  password =
      if is_empty m.auth_username || is_empty m.auth_password then none else some m.auth_password;
  url =
      (if is_smtps m.server_tls_mode then codes "smtps://" else codes "smtp://")
      ++ m.server_domain
      ++ b':' ∷ to_string m.server_port;
  use_ssl = ssl_of m.server_tls_mode;
  verify = is_plain m.server_tls_mode || m.verify_server_tls_cert;
  timeout = m.connection_timeout;
}

-- libcurl: whether it can be initialised, and whether a transfer succeeds, by its number; and what
-- the texts use from outside, by the number of the email.
pub record Curl : Type 0 where
  pub init_works : Bool
  pub perform : ℕ → Envelope → Bool
  pub draws : ℕ → Draws
  pub punycode_encode : Bytes → Bytes

module _ (c : Curl) (emails : Emails) where
  unfoldable pub envelope : ℕ → QueueElem → Result Envelope
  envelope i q = get_raw (c.draws i) (emails q.email) q.replacement_rules >>= λ payload.
      ok (record {
        mail_from = EmailAddress.get c.punycode_encode q.from false true;
        mail_rcpt = map (λ to. EmailAddress.get c.punycode_encode to false true) q.recipients;
        payload = payload;
      })

  -- The emails that are sent, the last of which may have failed.
  unfoldable pub send_all : ℕ → List QueueElem → List Envelope × Result (Unit {0})
  send_all i [] = ([], ok tt)
  send_all i (q ∷ queue) =
      let (sent, r) = send_all (suc i) queue in
      elim (envelope i q) [
        | err e ↦ ([], err e)
        | ok mail ↦ if c.perform i mail then (mail ∷ sent, r) else (mail ∷ [], err (exception 1))
      ]

  unfoldable pub process_queue : SmtpMailer → List Envelope × Result (Unit {0})
  process_queue m = if c.init_works then send_all 0 m.queue else ([], ok tt)
