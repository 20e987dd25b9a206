-- ===== src/Logging.antt =====
-- logging.c: log_enabled, which reads the list in HOOKSQFS_LOG_INCLUDE. A `const char *` is an
-- `Option Str`, `none` for NULL; a pointer into the list is the text from there on.
pub mod Pieces
pub mod Selects
pub mod Output
pub mod Buffer
pub mod Writes
mod Tests
mod OutputTests
use hooksqfs.Base.{
  ℕ, zero, suc, Bool, true, false, ◌&&◌, ◌||◌, not, Option, none, some, [], ◌∷◌, ◌==◌,
  if◌then◌else◌, length, drop, Str, codes,
}
use hooksqfs.Path.{char_at, strn_eq}

-- *p == ' ' || *p == '\t'
abbrev pub is_blank : ℕ → Bool
is_blank c = c == b' ' || c == 9

pub skip_blanks : Str → Str
skip_blanks [] = []
skip_blanks (c ∷ s) = if is_blank c then skip_blanks s else c ∷ s

-- From `start` up to the comma or the end, and `p` there.
pub scan_token : Str → Str × Str
scan_token [] = ([], [])
scan_token (c ∷ s) =
    let (token, p) = scan_token s in if c == b',' then ([], c ∷ s) else (c ∷ token, p)

-- The loop over `token_len`.
pub trim_len : Str → ℕ → ℕ
trim_len start zero = zero
trim_len start (suc n) = if is_blank (char_at start n) then trim_len start n else suc n

-- `token_len == n && strncmp(start, name, n) == 0` with the length `n` of the name.
abbrev pub token_is : Str → ℕ → Str → Bool
token_is start token_len name = token_len == length name && strn_eq start name (length name)

abbrev is_empty : Str → Bool
is_empty [] = true
is_empty (c ∷ s) = false

abbrev pub token_names : Str → ℕ → Option Str → Bool
token_names start token_len none = false
token_names start token_len (some func_name) =
    (not (is_empty func_name) && token_is start token_len func_name)
    || (strn_eq func_name (codes "sqfs_") 5 && token_is start token_len (drop 5 func_name))

-- The three tests of the loop that return 1.
abbrev pub token_enables : Str → ℕ → Option Str → Bool
token_enables start token_len func_name =
    token_is start token_len (codes "ALL") || token_names start token_len func_name

-- if (*p == ',') p++
abbrev pub skip_comma : Str → Str
skip_comma [] = []
skip_comma (c ∷ s) = if c == b',' then s else c ∷ s

-- The outer loop, at most `fuel` rounds.
pub include_loop : ℕ → Option Str → Str → Bool
include_loop zero func_name p = false
include_loop (suc fuel) func_name [] = false
include_loop (suc fuel) func_name (c ∷ s) =
    let start = skip_blanks (c ∷ s) in
    let (token, p) = scan_token start in
    let rest = include_loop fuel func_name (skip_comma p) in
    if token_enables start (trim_len start (length token)) func_name then true else rest

-- `include` is getenv("HOOKSQFS_LOG_INCLUDE"). A round takes a byte or more.
unfoldable pub log_enabled : Option Str → Option Str → Bool
unfolding skip_blanks scan_token trim_len include_loop
log_enabled none func_name = false
log_enabled (some include) func_name = include_loop (length include) func_name include
