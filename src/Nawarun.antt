-- ===== src/Nawarun.antt =====
-- src/nawarun/nawarun.cpp: the program that runs an application.
pub mod CommandLine
pub mod Settings
pub mod App
pub mod Privileges
pub mod Run
