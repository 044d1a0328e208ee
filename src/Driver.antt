-- ===== src/Driver.antt =====
-- driver/binder.c, the kernel driver of the binder.
pub mod Rbtree
pub mod Kernel
pub mod Buffer
pub mod Store
pub mod Node
pub mod Ref
pub mod Reply
pub mod Tests
