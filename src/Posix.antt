-- ===== src/Posix.antt =====
-- The part of POSIX that the crash handler calls: files and descriptors, signals, formatted text.
-- It is the platform's, and the program's definitions are composed from its calls.
pub mod Kernel
pub mod Files
pub mod Signals
pub mod Format
