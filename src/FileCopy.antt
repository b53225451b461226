-- ===== src/FileCopy.antt =====
-- Local copy of one file with io_uring: include/common.hpp (`FileContext`, `Stats`) and
-- src/main.cpp (`advance_state`).
pub mod Types
pub mod Handles
pub mod Advance
pub mod Kernel
pub mod Phases
pub mod Copy
pub mod Start
pub mod Data
pub mod Whole
pub mod Branches
pub mod Disturbed
pub mod Effects
mod Tests
