-- ===== src/Mail.antt =====
-- src/mail: addresses, emails, and the mailer.
pub mod EmailAddress
pub mod MimeEmail
pub mod Email
pub mod SmtpMailer
