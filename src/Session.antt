-- ===== src/Session.antt =====
-- src/session/Session.cpp: sessions that connections share through one global table.
-- The table maps session IDs to pointers; a pointer is the number of an object in the store, so that
-- two connections with one session see each other's changes, and an object outlives its entry in the
-- table while a connection still holds it. Each operation stands for the code under its locks.
pub mod Store
pub mod Start
pub mod Cookies
pub mod Values
pub mod Invariant
pub mod Autostart
