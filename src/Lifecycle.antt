-- ===== src/Lifecycle.antt =====
-- The environments of the kernel over time.
pub mod Order
pub mod Yield
pub mod Free
pub mod Prepare
pub mod Create
pub mod Lookup
pub mod Search
pub mod Receive
pub mod Send
pub mod Reached
mod Tests
