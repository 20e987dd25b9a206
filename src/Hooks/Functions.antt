-- ===== src/Hooks/Functions.antt =====
-- real.h, struct LibcFunctions. A pointer is a number, and NULL is 0.
use hooksqfs.Base.{ℕ, Bool, true, false, List, [], ◌∷◌, ◌==◌, if◌then◌else◌}

pub record LibcFunctions : Type 0 where
  pub open_func : ℕ
  pub read : ℕ
  pub pread : ℕ
  pub pread64 : ℕ
  pub lseek : ℕ
  pub lseek64 : ℕ
  pub close : ℕ
  pub close_nocancel : ℕ
  pub opendir : ℕ
  pub readdir : ℕ
  pub closedir : ℕ
  pub access : ℕ
  pub xstat : ℕ

-- The member that is looked up and hooked.
pub data Symbol : Type 0 where
  open_symbol : Symbol
  read_symbol : Symbol
  pread_symbol : Symbol
  pread64_symbol : Symbol
  lseek_symbol : Symbol
  lseek64_symbol : Symbol
  close_symbol : Symbol
  close_nocancel_symbol : Symbol
  opendir_symbol : Symbol
  readdir_symbol : Symbol
  closedir_symbol : Symbol
  access_symbol : Symbol
  xstat_symbol : Symbol

abbrev pub pointer : Symbol → LibcFunctions → ℕ
pointer open_symbol f = f.open_func
pointer read_symbol f = f.read
pointer pread_symbol f = f.pread
pointer pread64_symbol f = f.pread64
pointer lseek_symbol f = f.lseek
pointer lseek64_symbol f = f.lseek64
pointer close_symbol f = f.close
pointer close_nocancel_symbol f = f.close_nocancel
pointer opendir_symbol f = f.opendir
pointer readdir_symbol f = f.readdir
pointer closedir_symbol f = f.closedir
pointer access_symbol f = f.access
pointer xstat_symbol f = f.xstat

abbrev pub set_pointer : Symbol → ℕ → LibcFunctions → LibcFunctions
set_pointer open_symbol func f = record f { open_func = func }
set_pointer read_symbol func f = record f { read = func }
set_pointer pread_symbol func f = record f { pread = func }
set_pointer pread64_symbol func f = record f { pread64 = func }
set_pointer lseek_symbol func f = record f { lseek = func }
set_pointer lseek64_symbol func f = record f { lseek64 = func }
set_pointer close_symbol func f = record f { close = func }
set_pointer close_nocancel_symbol func f = record f { close_nocancel = func }
set_pointer opendir_symbol func f = record f { opendir = func }
set_pointer readdir_symbol func f = record f { readdir = func }
set_pointer closedir_symbol func f = record f { closedir = func }
set_pointer access_symbol func f = record f { access = func }
set_pointer xstat_symbol func f = record f { xstat = func }

-- The structure as the array of pointers that bLibcFuncPtrsLoaded reads.
abbrev pub words : LibcFunctions → List ℕ
words f =
    f.open_func ∷ f.read ∷ f.pread ∷ f.pread64 ∷ f.lseek ∷ f.lseek64 ∷ f.close ∷ f.close_nocancel
    ∷ f.opendir ∷ f.readdir ∷ f.closedir ∷ f.access ∷ f.xstat ∷ []

abbrev pub none_null : List ℕ → Bool
none_null [] = true
none_null (func ∷ funcs) = if func == 0 then false else none_null funcs

abbrev pub b_libc_func_ptrs_loaded : LibcFunctions → Bool
b_libc_func_ptrs_loaded f = none_null (words f)
