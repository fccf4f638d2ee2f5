-- ===== src/Tests.antt =====
-- Runs of the theorems on concrete inputs.
mod Sample
mod Sessions
mod Filters
mod Texts
mod Encodings
mod Responses
mod Queries
mod Multipart
mod Handlers
mod Programs
mod Mails
mod Hashes
