-- ===== src/Main.antt =====
-- src/main.cpp: the command line, the scan and the phases of a local copy.
pub mod Numbers
pub mod Network
pub mod Local
mod Tests
