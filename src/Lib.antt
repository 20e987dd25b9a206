-- ===== src/Lib.antt =====
-- hooksqfs: a library that is preloaded into a process and serves the files of a squashfs image below
-- a prefix. It hooks the file calls of the C library: a call on a path asks the C library first and,
-- where that fails, the image; a call on a descriptor is served from the image if the descriptor is in
-- the table of those that were opened from it.
--
-- The parts, and the files that model them (paths are those of the repository):
--
-- Path: the lexical path functions of utils.c, append_str, path_normalize_lexical,
--   path_equals_normalized and path_relative_to_root. The `while` loop over strsep is split_loop, its
--   body push_token; the `for` loop that rebuilds the path is rebuild, its body append_part.
--   Below it: Tokens (the strsep loop), Components (the array parts), Render (append_str and
--   the `for` loop), Normalize and Size (the whole of path_normalize_lexical), Reparse (its result read
--   back), Lexical and Equals (path_equals_normalized), Glued (the same on one-byte components), Prefix,
--   Roots and Relative (path_relative_to_root).
-- Errno: errno_from_sqfs of sqfs_mgr.c, with the error codes of libsquashfs by name.
-- Inode: sqfs_inode_mode, sqfs_inode_nlink, sqfs_inode_size and sqfs_fill_stat of sqfs_mgr.c.
-- Seek: max_signed_value_for_size, sqfs_seek_add and sqfs_seek_calculate of sqfs_mgr.c.
-- Env: what the entry points call: the functions of the C library through g_xLibcFuncs, getenv,
--   libsquashfs, and the table of uthash.h as a record of operations and laws (Env/Uthash), with an
--   association list that meets them (Env/Assoc). Each call may change the outside world and errno.
--   Env/Kernel is what the tables rely on: a descriptor or a directory that is given out is none of
--   those that are open in that world, and the calls of an open close none.
-- Manager: the state g_xSqfsMgr of sqfs_mgr.c with the thread's errno, the depth of the recursive
--   mutex, and counters of the inodes, directory readers and FDMapEntry objects that are allocated;
--   sqfs_check_path_then_convert, sqfs_find_inode and sqfs_stat_impl. Below it: Stats (sqfs_xstat and
--   sqfs_access, with the child Rules), Files (sqfs_open, sqfs_read, sqfs_pread, sqfs_pread64,
--   sqfs_lseek, sqfs_lseek64, sqfs_close and sqfs_close_nocancel, with the children Reads, Preads,
--   Seeks, Lifecycle, Balance and Contents), Effects (the helpers), Backing (create_memfd,
--   create_unlinked_tmp_fd and create_backing_fd of utils.c, and in the child Folder create_backing_dir),
--   Folders (the entry points on directories, below), Image (sqfs_mgr_load_image and
--   sqfs_mgr_unload_image, with the children Loading and Success), Session (sequences of calls), Sample and Tests (a
--   small image, and the calls on it).
-- Manager/Folders: Enumerate (enumerate_dir and free_sqfs_dir_entry_list), Opening (sqfs_opendir),
--   Reading (sqfs_readdir and sqfs_closedir); for proofs Ledger, Balance and Steps (the memory that the
--   table of directories owns), Listing (the list that enumerate_dir makes), Cursor (the names that
--   readdir gives, one after the other) and Contents (opendir and then readdir).
-- Logging: log_enabled of logging.c, with the children Pieces (the list of names cut at its commas),
--   Selects (which names it enables), Output (log_output_init_once, log_write, log_hook and log_msg),
--   Buffer and Writes (the bytes that reach the log).
-- Hooks: hooksqfs.c. Functions is struct LibcFunctions of real.h; Install has vPopulateLibcFuncPtrs,
--   install_hooks, uninstall_hooks, hooksqfs_init and hooksqfs_fini, and sqfs_mutex_init_once of
--   sqfs_mgr.c, over dlsym, funchook and the pthread calls; for proofs Preparing, Restore, Fini, Chain and
--   Prepared (which functions are hooked).
-- Base: shared types, tests, lists and integers over the native numbers.
--
-- An entry point is a function of the state to its result and the state after it. The labels of
-- sqfs_open and sqfs_access are functions of their own (error_and_free_inode, return_err), and the
-- two sides of a test for NULL or for an error are two clauses (with_fd, with_entry, read_entry).
-- A buffer that a call fills is part of its result.
--
-- Bounds: size_t has 32 bits, as in the default build (BITS=32), in append_str; the
-- width of off_t and time_t is a parameter, and the statements that depend on it hold for 32 and 64
-- bits. Offsets are uint64_t with their wrap-around written out, and the count of a read narrows to
-- the 32 bits that sqfs_data_reader_read takes. The strsep loop has fuel: the length of the path
-- and two, one round for each piece between slashes, of which there is at most one more than there
-- are bytes, and one to see the NULL. The names of temporary files are tried in 128 rounds, as in the
-- code, and so are those of temporary directories. enumerate_dir has fuel too, which is an argument of
-- sqfs_opendir: a number of rounds above that of the names gives the whole list. log_enabled has a
-- round for each byte of its list, and a round takes at least one byte. The loop of log_write has fuel
-- that is an argument: one round for each byte and each interruption is enough. All other loops are
-- structural.
--
-- Not modelled: the diagnostics of sqfs_mgr.c, and test_concurrent.c. The parts below Manager call
-- log_hook and log_msg through Env for their effects alone. A name in a struct dirent is a list,
-- whatever its length. Two threads that interleave are not modelled: between sqfs_lock and sqfs_unlock
-- the state is the caller's alone.
mod Base
pub mod Path
pub mod Errno
pub mod Seek
pub mod Inode
pub mod Env
pub mod Manager
pub mod Logging
pub mod Hooks
