-- ===== src/Manager/Folders.antt =====
-- sqfs_mgr.c, the entry points on directories: opendir, readdir and closedir.
pub mod Enumerate
pub mod Opening
pub mod Reading
pub mod Ledger
pub mod Balance
pub mod Steps
pub mod Listing
pub mod Cursor
pub mod Contents
mod Tests
