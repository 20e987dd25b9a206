-- ===== src/Hooks.antt =====
-- hooksqfs.c: the functions of the C library that are looked up, the hooks on them, and the constructor
-- and the destructor of the shared object.
pub mod Functions
pub mod Install
pub mod Preparing
pub mod Restore
pub mod Fini
pub mod Chain
pub mod Prepared
mod Tests
