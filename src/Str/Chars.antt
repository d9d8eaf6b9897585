-- ===== src/Str/Chars.antt =====
-- src/string.c: strings as the list of their characters up to the terminating NUL.
pub mod Compare
use edge_os.Prelude.{
  ℕ, zero, suc, Bool, true, false, ◌+◌, ◌-◌, Option, none, some, List, [], ◌∷◌, ◌++◌, ◌==◌,
  if◌then◌else◌, ltb, leb, not, ◌||◌, ◌&&◌, length,
}
use edge_os.Prelude.Int.{ℤ, pos, negsuc, ◌==ℤ◌}
use edge_os.Str.Mem.{byte_diff}

-- `int strlen(const char *s)`
unfoldable pub strlen : List ℕ → ℕ
strlen [] = 0
strlen (c ∷ cs) = suc (strlen cs)

-- 0 for equal strings and 1 for others
unfoldable pub strcmp : List ℕ → List ℕ → ℕ
strcmp [] [] = 0
strcmp [] (b ∷ t) = 1
strcmp (a ∷ s) [] = 1
strcmp (a ∷ s) (b ∷ t) = let rest = strcmp s t in if a == b then rest else 1

-- the character at the start of a string, NUL at its end
abbrev pub first_char : List ℕ → ℕ
first_char [] = 0
first_char (c ∷ cs) = c

abbrev pub rest_chars : List ℕ → List ℕ
rest_chars [] = []
rest_chars (c ∷ cs) = cs

-- characters of 7 bits, so that the signs of `char` and of a byte agree
unfoldable pub strncmp : List ℕ → List ℕ → ℕ → ℤ
strncmp s1 s2 zero = pos 0
strncmp s1 s2 (suc c) =
    let rest = strncmp (rest_chars s1) (rest_chars s2) c in
    if not (first_char s1 == first_char s2)
    then byte_diff (first_char s1) (first_char s2)
    else if first_char s1 == 0
    then pos 0
    else rest

-- The characters that `strcpy` leaves at its destination, and its result.
unfoldable pub strcpy : List ℕ → List ℕ × ℕ
strcpy [] = ([], 0)
strcpy (c ∷ cs) = let (copy, i) = strcpy cs in (c ∷ copy, i + 1)

unfoldable pub strcat : List ℕ → List ℕ → List ℕ
strcat dest src = dest ++ src

-- the `n` bytes that `strncpy` writes
unfoldable pub strncpy : List ℕ → ℕ → List ℕ
strncpy src zero = []
strncpy src (suc n) = first_char src ∷ strncpy (rest_chars src) n

-- The search of `strstr`: the rest of the string from the first place on where `str` stands.
unfoldable pub strstr_from : ℕ → List ℕ → List ℕ → Option (List ℕ)
strstr_from c str [] = none
strstr_from c str (sc ∷ rest) =
    let later = strstr_from c str rest in
    if not (sc == c)
    then later
    else if strncmp rest str (strlen str) ==ℤ pos 0
    then some (sc ∷ rest)
    else later

unfoldable pub strstr : List ℕ → List ℕ → Option (List ℕ)
strstr text [] = some text
strstr text (c ∷ str) = strstr_from c str text

unfoldable pub isspace : ℕ → Bool
isspace c = (c == 32) || (c == 9) || (c == 10) || (c == 11) || (c == 12) || (c == 13)

-- `c >= lo && c <= hi`
abbrev pub in_range : ℕ → ℕ → ℕ → Bool
in_range lo hi c = leb lo c && leb c hi

unfoldable pub isalpha : ℕ → Bool
isalpha c = in_range 65 90 c || in_range 97 122 c

unfoldable pub upper : ℕ → ℕ
upper c = if in_range 97 122 c then c - 32 else c

unfoldable pub lower : ℕ → ℕ
lower c = if in_range 65 90 c then c + 32 else c
