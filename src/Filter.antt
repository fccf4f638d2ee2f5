-- ===== src/Filter.antt =====
-- src/filter: access filters, and how a connection applies them.
pub mod Types
pub mod Matching
pub mod SendFile
pub mod Apply
