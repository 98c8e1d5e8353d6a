-- ===== src/Checks.antt =====
-- The checks of scripts/cpplint.py that keep no state: each returns its calls of `error`.
pub mod File
pub mod Threads
pub mod Line
pub mod Cxx11
pub mod Virtual
pub mod Spacing
mod Tests
