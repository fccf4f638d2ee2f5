-- ===== src/Util.antt =====
-- nawa/util and src/util: the string functions that the rest of the framework is written with.
pub mod Strings
pub mod Regex
pub mod Encoding
pub mod Queries
pub mod MimeMultipart
pub mod Time
pub mod ContentType
pub mod ErrorPage
pub mod Replace
