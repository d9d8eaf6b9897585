-- ===== src/Str/Tests.antt =====
-- src/string.c: the theorems at small inputs.
use edge_os.Prelude.{ℕ, ◌≡◌, ◌↔◌, inl, List, [], ◌∷◌, arith}
use edge_os.Prelude.Int.{pos, negsuc}
use edge_os.Str.Mem.{Memory, memmove, memcpy, memcmp}
use edge_os.Str.Mem.Move.{moved, memmove-moved, memcpy-moved}
use edge_os.Str.Chars.{strcmp, strstr}
use edge_os.Str.Chars.Compare.{strcmp_iff, strstr-Finds, Finds}
use edge_os.Str.Numbers.{atoi, itoa}
use edge_os.Str.Numbers.RoundTrip.{atoi-itoa}

-- each byte holds its address
abbrev plain : Memory
plain a = a

-- two blocks that overlap
memmove-moved_example : memmove plain 12 10 4 13 ≡ moved plain 12 10 4 13
memmove-moved_example = memmove-moved plain 12 10 4 13

memcpy-moved_example :
    ((a : ℕ) → memcpy plain 10 20 4 a ≡ moved plain 10 20 4 a)
    × (memcmp (memcpy plain 10 20 4) 10 20 4 ≡ pos 0)
memcpy-moved_example = memcpy-moved plain 10 20 4 (inl (omega arith))

-- "aab" and "ab"
abbrev aab : List ℕ
aab = 97 ∷ 97 ∷ 98 ∷ []

abbrev ab : List ℕ
ab = 97 ∷ 98 ∷ []

strcmp_iff_example : (strcmp aab ab ≡ 0) ↔ (aab ≡ ab)
strcmp_iff_example = strcmp_iff aab ab

strstr-Finds_example : Finds aab ab (strstr aab ab)
strstr-Finds_example = strstr-Finds aab ab (omega arith, (omega arith, tt))

atoi-itoa_example : atoi (itoa 100 (negsuc 1204)) ≡ negsuc 1204
atoi-itoa_example = atoi-itoa (negsuc 1204) (omega arith)
