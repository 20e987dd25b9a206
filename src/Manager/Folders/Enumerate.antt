-- ===== src/Manager/Folders/Enumerate.antt =====
-- sqfs_mgr.c, enumerate_dir: the entries of a directory of the image as a list. The buffer `d_name` holds
-- the name; what the copy would overwrite beyond its 256 bytes is not part of the model.
use hooksqfs.Base.{
  ℕ, zero, suc, ◌+◌, ◌-◌, Bool, true, false, List, [], ◌∷◌, ◌++◌, if◌then◌else◌, Str, ◌⊎◌, inl, inr,
}
use hooksqfs.Errno.{SqfsError}
use hooksqfs.Inode.{Inode, InodeType, dir, ext_dir}
use hooksqfs.Env.{Env, Node, DirEntry, DirRead, no_more, dir_error, dir_name}
use hooksqfs.Manager.{M, ◌>>=◌, ◌>>◌, pure, call, allocated}

abbrev pub is_directory : InodeType → Bool
is_directory dir = true
is_directory ext_dir = true
is_directory kind = false

-- DT_DIR and DT_REG of dirent.h
abbrev pub d_type_of : InodeType → ℕ
d_type_of kind = if is_directory kind then 4 else 8

module _ (e : Env) where
  open e use {
    World, Reader, sizeof_dirent, libc_opendir, libc_readdir, libc_closedir, malloc, log_hook,
    log_msg, include_variable, dir_reader_create, dir_reader_open_dir, dir_reader_read,
    dir_reader_get_inode,
  }
  open e.dirs use {find, add, update, del}

  -- What sqfs_dir_reader_read allocated, and malloc of a node.
  abbrev pub entry_allocated : M e (Unit {0})
  entry_allocated s = (tt, record s { dir_entries = s.dir_entries + 1 })

  abbrev pub entry_freed : M e (Unit {0})
  entry_freed s = (tt, record s { dir_entries = s.dir_entries - 1 })

  abbrev pub node_allocated : M e (Unit {0})
  node_allocated s = (tt, record s { nodes = s.nodes + 1 })

  -- The inodes and the nodes of the list are freed; the caller's pointer becomes NULL.
  unfoldable pub free_sqfs_dir_entry_list : List Node → M e (List Node)
  free_sqfs_dir_entry_list [] s = ([], s)
  free_sqfs_dir_entry_list (node ∷ nodes) s =
      free_sqfs_dir_entry_list nodes (record s { inodes = s.inodes - 1; nodes = s.nodes - 1 })

  abbrev pub make_node : Str → Inode → Node
  make_node name inode = record {
    inode = inode;
    dirent = record {
      d_ino = inode.inode_number;
      d_off = 114514;
      d_reclen = sizeof_dirent;
      d_type = d_type_of inode.kind;
      d_name = name;
    };
  }

  -- The rest of a round after get_inode; `next` is the next round.
  abbrev pub with_inode :
      (List Node → M e (List Node)) → List Node → Str → SqfsError ⊎ Inode → M e (List Node)
  with_inode next nodes name (inl ret) =
      call log_msg >> entry_freed >> free_sqfs_dir_entry_list nodes
  with_inode next nodes name (inr inode) = allocated >> next (nodes ++ make_node name inode ∷ [])

  abbrev pub with_node :
      (List Node → M e (List Node)) → Reader → List Node → Str → Bool → M e (List Node)
  with_node next reader nodes name false =
      call log_msg >> entry_freed >> free_sqfs_dir_entry_list nodes
  with_node next reader nodes name true =
      node_allocated >> call (dir_reader_get_inode reader) >>= with_inode next nodes name

  abbrev pub with_read :
      (List Node → M e (List Node)) → Reader → List Node → DirRead → M e (List Node)
  with_read next reader nodes no_more = pure nodes
  with_read next reader nodes (dir_error ret) = call log_msg >> free_sqfs_dir_entry_list nodes
  with_read next reader nodes (dir_name name) =
      entry_allocated >> call malloc >>= with_node next reader nodes name

  -- The `while (true)` loop, at most `fuel` rounds; a list is the list so far.
  unfoldable pub enumerate_dir : ℕ → Reader → List Node → M e (List Node)
  enumerate_dir zero reader nodes s = (nodes, s)
  enumerate_dir (suc fuel) reader nodes s =
      (call (dir_reader_read reader) >>= with_read (enumerate_dir fuel reader) reader nodes) s

  -- A write to the entry of the table.
  abbrev pub set_dir : ℕ → DirEntry Reader → M e (Unit {0})
  set_dir key entry s = (tt, record s { dir_map = update key entry s.dir_map })
