-- ===== src/Vfs/Paths.antt =====
-- src/vfs/vfs.c: `normalize_path` and `parse_decimal_str`.
pub mod Absolute
use edge_os.Prelude.{
  ℕ, zero, suc, Bool, true, false, ◌+◌, ◌-◌, ◌*◌, Option, none, some, List, [], ◌∷◌, ◌++◌, ◌==◌,
  if◌then◌else◌, ltb, leb, not, ◌&&◌, ◌||◌, length,
}
use edge_os.Str.Chars.{first_char, strcmp}
use edge_os.Str.Numbers.{turned, is_digit}

abbrev pub slash : ℕ
slash = 47

abbrev pub dot : ℕ
dot = 46

abbrev pub vfs_path_max : ℕ
vfs_path_max = 256

abbrev pub vfs_name_max : ℕ
vfs_name_max = 64

-- `while (tmp[i] == '/') i++;`
unfoldable pub skip_slashes : List ℕ → List ℕ
skip_slashes [] = []
skip_slashes (c ∷ cs) = let rest = skip_slashes cs in if c == slash then rest else c ∷ cs

-- the name up to the next slash, and what is left behind it
unfoldable pub name_of : List ℕ → List ℕ
name_of [] = []
name_of (c ∷ cs) = let rest = name_of cs in if c == slash then [] else c ∷ rest

unfoldable pub behind_name : List ℕ → List ℕ
behind_name [] = []
behind_name (c ∷ cs) = let rest = behind_name cs in if c == slash then c ∷ cs else rest

-- The buffer `out` up to `oi`, the last character first.
-- `while (oi > 0 && out[oi - 1] != '/') oi--;`
unfoldable pub back_to_slash : List ℕ → List ℕ
back_to_slash [] = []
back_to_slash (c ∷ o) = let rest = back_to_slash o in if c == slash then c ∷ o else rest

abbrev pub tail : List ℕ → List ℕ
tail [] = []
tail (c ∷ cs) = cs

unfoldable pub go_up : List ℕ → List ℕ
go_up o = if ltb 1 (length o) then back_to_slash (tail o) else o

unfoldable pub push_slash : List ℕ → List ℕ
push_slash o = if ltb 1 (length o) && ltb (length o) (vfs_path_max - 1) then slash ∷ o else o

unfoldable pub push_chars : List ℕ → List ℕ → List ℕ
push_chars [] o = o
push_chars (c ∷ name) o =
    let rest = push_chars name (c ∷ o) in if ltb (length o) (vfs_path_max - 1) then rest else o

unfoldable pub add_name : List ℕ → List ℕ → List ℕ
add_name o name =
    if strcmp name (dot ∷ []) == 0
    then o
    else if strcmp name (dot ∷ dot ∷ []) == 0
    then go_up o
    else push_chars name (push_slash o)

-- The loop along the text; `none` means that the fuel ran out.
unfoldable pub normalize_from : ℕ → List ℕ → List ℕ → Option (List ℕ)
normalize_from zero text o = none
normalize_from (suc fuel) text o =
    let q = skip_slashes text in
    let rest = normalize_from fuel (behind_name q) (add_name o (name_of q)) in
    if first_char q == 0 then some o else rest

-- `if (oi == 0) { out[0] = '/'; out[1] = 0; }`
abbrev pub out_text : List ℕ → List ℕ
out_text [] = slash ∷ []
out_text (c ∷ o) = turned (c ∷ o) []

-- A text in the buffer `tmp`, which `strcpy` and `strcat` fill without a look at its size; `none` if
-- the text and its NUL go past the end of the buffer.
unfoldable pub in_tmp : List ℕ → Option (List ℕ)
in_tmp text = if ltb (length text) vfs_path_max then some text else none

-- the text that is normalised, for a path and the current directory
unfoldable pub path_text : List ℕ → List ℕ → Option (List ℕ)
unfolding in_tmp
path_text cwd [] = in_tmp cwd
path_text cwd (c ∷ path) =
    if c == slash
    then in_tmp (c ∷ path)
    else if strcmp cwd (slash ∷ []) == 0
    then in_tmp (cwd ++ (c ∷ path))
    else in_tmp (cwd ++ (slash ∷ c ∷ path))

-- What comes of it: the buffer `tmp` is overrun, the fuel of the loop ran out, or the path.
pub data Normalized : Type 0 where
  overruns unfinished : Normalized
  normal : List ℕ → Normalized

unfoldable pub normalize_text : List ℕ → Normalized
normalize_text text = elim (normalize_from (length text + 1) text (slash ∷ [])) [
  | none ↦ unfinished
  | some o ↦ normal (out_text o)
]

unfoldable pub normalize_path : List ℕ → List ℕ → Normalized
unfolding normalize_text
normalize_path cwd path = elim (path_text cwd path) [
  | none ↦ overruns
  | some text ↦ normalize_text text
]

-- The number, where the text has digits alone and the number is at most a million.
unfoldable pub decimal_from : ℕ → List ℕ → Option ℕ
decimal_from v [] = some v
decimal_from v (c ∷ cs) =
    let next = v * 10 + (c - 48) in
    let rest = decimal_from next cs in
    if not (is_digit c) then none else if ltb 1000000 next then none else rest

unfoldable pub parse_decimal_str : List ℕ → Option ℕ
parse_decimal_str [] = none
parse_decimal_str (c ∷ cs) = decimal_from 0 (c ∷ cs)
