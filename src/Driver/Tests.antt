-- ===== src/Driver/Tests.antt =====
-- The theorems on driver/binder.c at concrete inputs.
pub mod Sample
pub mod BufferTests
pub mod RefTests
pub mod ReplyTests
pub mod CountTests
