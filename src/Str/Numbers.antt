-- ===== src/Str/Numbers.antt =====
-- src/string.c: `itoa` and `atoi`.
pub mod RoundTrip
use edge_os.Prelude.{
  ℕ, zero, suc, Bool, true, false, ◌+◌, ◌-◌, ◌*◌, ◌/◌, ◌%◌, List, [], ◌∷◌, ◌==◌, if◌then◌else◌, ltb,
  leb, ◌&&◌,
}
use edge_os.Prelude.Int.{ℤ, pos, negsuc}
use edge_os.Str.Chars.{isspace}

-- `uint32_t`, and the `int` of the same bits
abbrev pub wrap : ℕ → ℕ
wrap n = n % 4294967296

abbrev pub to_int : ℕ → ℤ
to_int n = if ltb n 2147483648 then pos n else negsuc (4294967295 - n)

-- `(uint32_t)d` and `(uint32_t)-d`
abbrev pub to_uint : ℤ → ℕ
to_uint (pos n) = wrap n
to_uint (negsuc n) = wrap (4294967295 - n)

abbrev pub negated : ℤ → ℕ
negated (pos n) = wrap (4294967296 - n)
negated (negsuc n) = wrap (n + 1)

-- `-` and `+`
abbrev pub minus : ℕ
minus = 45

abbrev pub plus : ℕ
plus = 43

-- `(r < 10) ? (r + '0') : (r - 10 + 'a')`
abbrev pub digit_char : ℕ → ℕ
digit_char r = if ltb r 10 then r + 48 else r - 10 + 97

-- The characters that the loop stores in `tmp`, the last digit first. The buffer has 32 places,
-- and 32 bits have at most 11 digits to the bases there are.
unfoldable pub digits : ℕ → ℕ → ℕ → List ℕ
digits zero b u = []
digits (suc fuel) b u =
    let rest = digits fuel b (u / b) in if u == 0 then [] else digit_char (u % b) ∷ rest

abbrev pub digits_fuel : ℕ
digits_fuel = 32

-- `while (i > 0) *buf++ = tmp[--i];`, in front of what the buffer gets behind
abbrev pub turned : List ℕ → List ℕ → List ℕ
turned [] acc = acc
turned (c ∷ cs) acc = turned cs (c ∷ acc)

unfoldable pub uint_text : ℕ → ℕ → List ℕ
uint_text b u = if u == 0 then 48 ∷ [] else turned (digits digits_fuel b u) []

-- `x`, `o` and `d`
abbrev pub base_of : ℕ → ℕ
base_of base = if base == 120 then 16 else if base == 111 then 8 else 10

unfoldable pub itoa : ℕ → ℤ → List ℕ
itoa base (pos n) = uint_text (base_of base) (to_uint (pos n))
itoa base (negsuc n) =
    if base == 100
    then minus ∷ uint_text 10 (negated (negsuc n))
    else uint_text (base_of base) (to_uint (negsuc n))

unfoldable pub skip_spaces : List ℕ → List ℕ
skip_spaces [] = []
skip_spaces (c ∷ cs) = let rest = skip_spaces cs in if isspace c then rest else c ∷ cs

abbrev pub is_digit : ℕ → Bool
is_digit c = leb 48 c && leb c 57

unfoldable pub read_digits : ℕ → List ℕ → ℕ
read_digits v [] = v
read_digits v (c ∷ cs) =
    let rest = read_digits (wrap (v * 10 + (c - 48))) cs in if is_digit c then rest else v

-- `sign * v` for the two signs
abbrev pub minus_int : ℕ → ℤ
minus_int v = to_int (wrap (4294967296 - v))

-- behind the spaces
unfoldable pub read_signed : List ℕ → ℤ
read_signed [] = to_int (read_digits 0 [])
read_signed (c ∷ cs) =
    if c == minus
    then minus_int (read_digits 0 cs)
    else if c == plus
    then to_int (read_digits 0 cs)
    else to_int (read_digits 0 (c ∷ cs))

-- of a string that is there; NULL gives 0
unfoldable pub atoi : List ℕ → ℤ
atoi s = read_signed (skip_spaces s)
