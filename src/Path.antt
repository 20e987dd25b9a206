-- ===== src/Path.antt =====
-- utils.c, the lexical path functions: append_str, path_normalize_lexical, path_equals_normalized
-- and path_relative_to_root. A `const char *` is an `Option Str`, `none` for NULL. A buffer that a
-- call writes to is the text that it holds after the call, inside `some` for `return true`.
pub mod Tokens
pub mod Components
pub mod Render
pub mod Normalize
pub mod Size
pub mod Reparse
pub mod Lexical
pub mod Equals
pub mod Glued
pub mod Prefix
pub mod Roots
pub mod Relative
mod Tests
use mathlib.Core.List.{reverse}
use hooksqfs.Base.{
  ℕ, zero, suc, ◌+◌, ◌-◌, ◌/◌, ◌%◌, ◌^◌, Bool, true, false, not, ◌&&◌, ◌||◌, Option, none, some,
  List, [], ◌∷◌, ◌++◌, ltb, leb, ◌==◌, if◌then◌else◌, ◌>>=◌, length, take, drop, Str, codes, str_eq,
}

abbrev pub path_max : ℕ
path_max = 4096

abbrev pub slash : ℕ
slash = b'/'

abbrev pub dot : Str
dot = b'.' ∷ []

abbrev pub dot_dot : Str
dot_dot = b'.' ∷ b'.' ∷ []

-- `a - b` in the 32-bit size_t of the default build.
abbrev pub size_sub : ℕ → ℕ → ℕ
size_sub a b = (a + 2 ^ 32 - b) % 2 ^ 32

-- `out` is the text in the buffer. A refused append leaves it as it was.
pub append_str : Option Str → ℕ → Option Str → Option Str
append_str none out_size s = none
append_str (some out) out_size none = none
append_str (some out) out_size (some s) =
    if out_size == 0
    then none
    else if leb (size_sub out_size (length out)) (length s)
    then none
    else some (out ++ s)

-- strsep(&p, "/") at a non-NULL `p`: the token and the new `p`.
pub strsep : Str → Str × Option Str
strsep [] = ([], none)
strsep (c ∷ s) =
    let (token, rest) = strsep s in if c == slash then ([], some s) else (c ∷ token, rest)

-- parts[0 .. count), last part first.
abbrev pub Parts : Type 0
Parts = List Str

abbrev starts_empty : Str → Bool
starts_empty [] = true
starts_empty (c ∷ s) = false

-- count > 0 && strcmp(parts[count - 1], "..") != 0
abbrev pub can_pop : Parts → Bool
can_pop [] = false
can_pop (part ∷ parts) = not (str_eq part dot_dot)

abbrev pub pop_part : Parts → Parts
pop_part [] = []
pop_part (part ∷ parts) = parts

-- The body of the `while` loop.
pub push_token : Bool → Parts → Str → Parts
push_token absolute parts token =
    if starts_empty token || str_eq token dot
    then parts
    else if str_eq token dot_dot
    then (if can_pop parts then pop_part parts else if not absolute then token ∷ parts else parts)
    else token ∷ parts

-- The `while` loop, `none` when the fuel runs out.
pub split_loop : ℕ → Bool → Parts → Option Str → Option Parts
split_loop zero absolute parts p = none
split_loop (suc fuel) absolute parts none = some parts
split_loop (suc fuel) absolute parts (some p) =
    let (token, rest) = strsep p in split_loop fuel absolute (push_token absolute parts token) rest

-- The body of the `for` loop: a separator where the code puts one, and the part.
pub append_part : Bool → ℕ → ℕ → Str → Str → Option Str
append_part absolute out_size i out part =
    (if (ltb 0 i || absolute) && ltb 1 (length out)
      then append_str (some out) out_size (some (slash ∷ []))
      else some out)
    >>= λ out'. append_str (some out') out_size (some part)

pub rebuild : Bool → ℕ → ℕ → Str → List Str → Option Str
rebuild absolute out_size i out [] = some out
rebuild absolute out_size i out (part ∷ parts) =
    append_part absolute out_size i out part >>= λ out'.
    rebuild absolute out_size (i + 1) out' parts

-- in[0] == '/'
abbrev pub is_absolute : Str → Bool
is_absolute [] = false
is_absolute (c ∷ s) = c == slash

abbrev finish : Bool → ℕ → Str → Option Str
finish absolute out_size [] =
    append_str (some []) out_size (some (if absolute then slash ∷ [] else dot))
finish absolute out_size (c ∷ out) = some (c ∷ out)

-- From `out[0] = '\0'` to the end.
pub write_parts : Bool → ℕ → List Str → Option Str
write_parts absolute out_size parts =
    (if absolute then append_str (some []) out_size (some (slash ∷ [])) else some []) >>= λ out.
    rebuild absolute out_size 0 out parts >>= λ out'. finish absolute out_size out'

-- The call after its NULL tests.
pub normalize : Str → ℕ → Option Str
normalize path out_size =
    if out_size == 0
    then none
    else if leb path_max (length path)
    then none
    else split_loop (length path + 2) (is_absolute path) [] (some path) >>= λ parts.
        write_parts (is_absolute path) out_size (reverse parts)

unfoldable pub path_normalize_lexical : Option Str → Option Str → ℕ → Option Str
unfolding append_str strsep push_token split_loop append_part rebuild write_parts normalize str_eq
path_normalize_lexical none out out_size = none
path_normalize_lexical (some path) none out_size = none
path_normalize_lexical (some path) (some out) out_size = normalize path out_size

-- The two local buffers have PATH_MAX bytes.
abbrev pub both_equal : Option Str → Option Str → Bool
both_equal (some a) (some b) = str_eq a b
both_equal (some a) none = false
both_equal none b = false

unfoldable pub path_equals_normalized : Option Str → Option Str → Bool
unfolding append_str strsep push_token split_loop append_part rebuild write_parts normalize str_eq
path_equals_normalized none b = false
path_equals_normalized (some a) none = false
path_equals_normalized (some a) (some b) = both_equal (normalize a path_max) (normalize b path_max)

-- The byte at an index, the NUL at the end.
abbrev pub char_at : Str → ℕ → ℕ
char_at [] i = 0
char_at (c ∷ s) zero = c
char_at (c ∷ s) (suc i) = char_at s i

-- strncmp(s, t, n) == 0
abbrev pub strn_eq : Str → Str → ℕ → Bool
strn_eq s t n = str_eq (take n s) (take n t)

-- The loop over `root_len`.
pub strip_slashes : Str → ℕ → ℕ
strip_slashes norm_root zero = zero
strip_slashes norm_root (suc n) =
    if ltb 1 (suc n) && (char_at norm_root n == slash) then strip_slashes norm_root n else suc n

-- relative_out != NULL && relative_out_size != 0
abbrev pub write_relative : Option Str → ℕ → Bool
write_relative none size = false
write_relative (some out) size = not (size == 0)

abbrev pub copy_out : Option Str → ℕ → Str → Option (Option Str)
copy_out relative_out size relative =
    if write_relative relative_out size
    then (if leb size (length relative) then none else some (some relative))
    else some relative_out

-- The call after both paths are normalized.
pub relative_of : Str → Str → Option Str → ℕ → Option (Option Str)
relative_of norm_root norm_path relative_out size =
    let root_len = strip_slashes norm_root (length norm_root) in
    let path_len = length norm_path in
    if (root_len == 1) && (char_at norm_root 0 == slash)
    then (if not (char_at norm_path 0 == slash)
        then none
        else copy_out relative_out size (drop 1 norm_path))
    else if ltb path_len root_len || not (strn_eq norm_path norm_root root_len)
    then none
    else if path_len == root_len
    then (if write_relative relative_out size then some (some []) else some relative_out)
    else if not (char_at norm_path root_len == slash)
    then none
    else copy_out relative_out size (drop (root_len + 1) norm_path)

-- `some` for `return true`, with what `relative_out` holds then.
unfoldable pub path_relative_to_root :
    Option Str → Option Str → Option Str → ℕ → Option (Option Str)
unfolding append_str strsep push_token split_loop append_part rebuild write_parts normalize str_eq
    strip_slashes relative_of
path_relative_to_root none path relative_out size = none
path_relative_to_root (some root) none relative_out size = none
path_relative_to_root (some root) (some path) relative_out size =
    normalize root path_max >>= λ norm_root.
    normalize path path_max >>= λ norm_path. relative_of norm_root norm_path relative_out size
