-- ===== src/Pools.antt =====
-- include/common.hpp: `BufferPool` and `PipePool`, fixed sets of resources handed out by index.
pub mod Slots
mod Tests
mod PipeTests
pub mod Owners
pub mod PipePool
pub mod BufferPool
