-- ===== src/Env/Kernel.antt =====
-- What the program relies on when it keys its tables by a descriptor or by a `DIR *`: the kernel and the
-- C library give out none that is still open.
use hooksqfs.Base.{ℕ, ◌≢◌, Option, some, Str}
use hooksqfs.Base.Int.{pos}
use hooksqfs.Inode.{Inode}
use hooksqfs.Env.{Env}

module _ (e : Env) where
  open e use {World}

  -- These calls leave it so: they close no descriptor and no directory of the program.
  pub record Closeless (IsOpen : World → Type 0) : Type 0 where
    pub by_open :
        (pathname : Option Str) (flags : ℕ) (mode : Option ℕ) (w : World)
        → IsOpen w
        → IsOpen (e.libc_open pathname flags mode w).world
    pub by_opendir :
        (name : Option Str) (w : World) → IsOpen w → IsOpen (e.libc_opendir name w).world
    pub by_log_hook : (w : World) → IsOpen w → IsOpen (e.log_hook w).world
    pub by_create : (w : World) → IsOpen w → IsOpen (e.dir_reader_create w).world
    pub by_get_root :
        (reader : e.Reader) (w : World) → IsOpen w → IsOpen (e.get_root_inode reader w).world
    pub by_find :
        (reader : e.Reader) (path : Str) (w : World)
        → IsOpen w
        → IsOpen (e.find_by_path reader path w).world
    pub by_open_dir :
        (reader : e.Reader) (inode : Inode) (w : World)
        → IsOpen w
        → IsOpen (e.dir_reader_open_dir reader inode w).world
    pub by_memfd_create : (flags : ℕ) (w : World) → IsOpen w → IsOpen (e.memfd_create flags w).world
    pub by_openat :
        (path : Str) (flags : ℕ) (w : World) → IsOpen w → IsOpen (e.openat path flags w).world
    pub by_mkdir :
        (path : Str) (mode : ℕ) (w : World) → IsOpen w → IsOpen (e.mkdir path mode w).world

  -- The descriptors that are open in a world; a new one is none of them.
  pub record OpenFds : Type 1 where
    pub IsOpen : World → ℕ → Type 0
    pub kept : (n : ℕ) → Closeless (λ w. IsOpen w n)
    pub new_memfd : (flags n : ℕ) (w : World) → IsOpen w n → (e.memfd_create flags w).value ≢ pos n
    pub new_openat :
        (path : Str) (flags n : ℕ) (w : World) → IsOpen w n → (e.openat path flags w).value ≢ pos n

  -- The same for the directories of the C library.
  pub record OpenDirs : Type 1 where
    pub IsOpen : World → ℕ → Type 0
    pub kept : (n : ℕ) → Closeless (λ w. IsOpen w n)
    pub new_opendir :
        (name : Option Str) (n : ℕ) (w : World)
        → IsOpen w n
        → (e.libc_opendir name w).value ≢ some n
