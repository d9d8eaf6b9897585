-- ===== src/Str/Mem.antt =====
-- src/string.c: `memset`, `memcpy`, `memmove` and `memcmp`, on a memory of bytes. A block that a
-- call is given does not wrap round the end of the address space.
pub mod Move
use edge_os.Prelude.{ℕ, zero, suc, ◌+◌, ◌-◌, Bool, ◌==◌, if◌then◌else◌, ltb, not, ◌||◌}
use edge_os.Prelude.Int.{ℤ, pos, negsuc}
use edge_os.Prelude.Maps.{upd}

abbrev pub Memory : Type 0
Memory = ℕ → ℕ

-- `for (; n != 0; n--) *temp++ = c;`
unfoldable pub memset : Memory → ℕ → ℕ → ℕ → Memory
memset m dst c zero = m
memset m dst c (suc n) = memset (upd m dst c) (dst + 1) c n

-- `while (n--) *p++ = *q++;`
unfoldable pub memcpy : Memory → ℕ → ℕ → ℕ → Memory
memcpy m dst src zero = m
memcpy m dst src (suc n) = memcpy (upd m dst (m src)) (dst + 1) (src + 1) n

-- The two loops of `memmove`: up from offset `i`, of which `n` are left, and down from `n`.
unfoldable pub move_up : Memory → ℕ → ℕ → ℕ → ℕ → Memory
move_up m d s i zero = m
move_up m d s i (suc n) = move_up (upd m (d + i) (m (s + i))) d s (i + 1) n

unfoldable pub move_down : Memory → ℕ → ℕ → ℕ → Memory
move_down m d s zero = m
move_down m d s (suc n) = move_down (upd m (d + n) (m (s + n))) d s n

unfoldable pub memmove : Memory → ℕ → ℕ → ℕ → Memory
memmove m d s n =
    if (d == s) || (n == 0) then m else if ltb d s then move_up m d s 0 n else move_down m d s n

-- the difference of two bytes
abbrev pub byte_diff : ℕ → ℕ → ℤ
byte_diff a b = if ltb a b then negsuc (b - a - 1) else pos (a - b)

unfoldable pub memcmp : Memory → ℕ → ℕ → ℕ → ℤ
memcmp m a b zero = pos 0
memcmp m a b (suc n) =
    let rest = memcmp m (a + 1) (b + 1) n in
    if not (m a == m b) then byte_diff (m a) (m b) else rest
