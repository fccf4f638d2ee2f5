-- ===== src/Connection.antt =====
-- src/connection/Connection.cpp: the state of a connection, its response and its cookies.
pub mod State
pub mod Response
pub mod Stream
pub mod Status
pub mod Headers
pub mod Cookies
