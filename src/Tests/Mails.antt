-- ===== src/Tests/Mails.antt =====
-- Runs of the theorems on emails.
use nawa.Common.{
  ℕ, Bytes, arith, ◌≡◌, refl, not, ◌==◌, true, false, [], ◌∷◌, ◌++◌, none, some, codes, beq,
}
use nawa.Common.Table.{lookup, insert_new}
use nawa.Common.Result.{ok}
use nawa.Mail.EmailAddress.{EmailAddress, apply_punycode_to_domain}
use nawa.Mail.EmailAddress
use nawa.Util.Strings.{split_string}
use nawa.Common.Number.{to_string}
use nawa.Mail.MimeEmail.{Draws, replaced}
use nawa.Mail.Email.{simple, get_raw}
use nawa.Util.Replace.{string_replace, replace_key}
use nawa.Util.MimeMultipart.{starts_with}
use nawa.Mail.Email.Receive.{read_email}
use nawa.Mail.Email.Laws.{get_raw-read_email}
use nawa.Mail.SmtpMailer.{
  Clock, Headers, plain, SmtpMailer, QueueElem, Emails, Curl, Envelope, after_last,
  add_missing_headers, add_date, add_from, add_message_id, message_id, has,
}
use nawa.Mail.SmtpMailer.Laws.{Complete, Stays, add_missing_headers-Complete}

abbrev draws : Draws
draws = record { random = λ i. i; md5 = λ s. s; base64_encode = λ s. s }

is_replaced : replaced (some ((codes "n", codes "m") ∷ [])) (codes "n=n") ≡ ok (codes "m=m")
unfolding replaced string_replace replace_key starts_with
is_replaced = refl

get_raw-read_email_example :
    (raw : Bytes) × (get_raw draws
        (record { headers = (codes "A", codes "b") ∷ []; content = simple (codes "n=n") true })
        (some ((codes "n", codes "m") ∷ []))
      ≡ ok raw)
    × (read_email raw ≡ codes "m=m")
get_raw-read_email_example =
    get_raw-read_email draws ((codes "A", codes "b") ∷ []) (codes "n=n") (codes "m=m") true
      (some ((codes "n", codes "m") ∷ [])) is_replaced
      (omega arith, (omega arith, (omega arith, tt)))
      (
        (
          (λ e. omega (arith, e)),
          ((λ e. omega (arith, e)), ((λ e. omega (arith, e)), ((λ e. omega (arith, e)), tt))),
        ),
        tt,
      )
      (λ e. cc)

abbrev clock : ℕ → Clock
clock n = record {
  smtp_time = ok (codes "now");
  seconds = n;
  nanoseconds = n;
  random = n;
  md5 = λ s. s;
  punycode_encode = λ s. s;
}

abbrev sender : EmailAddress
sender = record { name = codes "A"; address = codes "a@b" }

abbrev old : Headers
old = (codes "Date", codes "old") ∷ []

abbrev completed : Headers
completed =
    (codes "Date", codes "old")
    ∷ (codes "From", codes "A <a@b>")
    ∷ (codes "Message-ID", codes "<11a@b1@b>")
    ∷ []

has_domain : after_last b'@' (codes "a@b") ≡ some (codes "b")
unfolding after_last
has_domain = refl

is_completed : add_missing_headers (clock 1) sender old ≡ ok completed
unfolding add_missing_headers add_date add_from add_message_id has after_last lookup insert_new beq
    message_id EmailAddress.get apply_punycode_to_domain split_string to_string
is_completed = refl

add_missing_headers-Complete_example :
    Stays old completed
    × Complete completed
    × (add_missing_headers (clock 2) sender completed ≡ ok completed)
add_missing_headers-Complete_example =
    add_missing_headers-Complete (clock 1) (clock 2) sender sender (codes "b") old completed
      has_domain is_completed

abbrev emails : Emails
emails i = record { headers = []; content = simple (codes "hi") false }

abbrev element : ℕ → QueueElem
element p = record { email = p; from = sender; recipients = []; replacement_rules = none }

abbrev mailer : SmtpMailer
mailer = record {
  server_domain = codes "localhost";
  server_port = 25;
  server_tls_mode = plain;
  verify_server_tls_cert = true;
  auth_username = [];
  auth_password = [];
  connection_timeout = 0;
  queue = element 0 ∷ element 1 ∷ element 2 ∷ [];
}

-- The second transfer fails.
abbrev curl : Curl
curl = record {
  init_works = true;
  perform = λ i mail. not (i == 1);
  draws = λ i. draws;
  punycode_encode = λ s. s;
}

abbrev mail : Envelope
mail = record {
  mail_from = codes "<a@b>";
  mail_rcpt = [];
  payload = codes "MIME-Version: 1.0" ++ 13 ∷ 10 ∷ 13 ∷ 10 ∷ codes "hi";
}
