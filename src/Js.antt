-- ===== src/Js.antt =====
-- The part of JavaScript that the program's code runs on.
pub mod Text
pub mod Value
pub mod Errors
pub mod Host
pub mod Io
