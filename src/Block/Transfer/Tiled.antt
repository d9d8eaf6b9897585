-- ===== src/Block/Transfer/Tiled.antt =====
-- src/block/block.c: the transfers of a call tile the sectors that it was asked for.
use edge_os.Prelude.{
  pick, ℕ, zero, suc, true, ◌≡◌, refl, sym, subst, ◌≢◌, ◌+◌, ◌-◌, ◌*◌, ◌≤◌, ◌<◌, Option, some, List,
  [], ◌∷◌, arith, min, leb, ltb, not, ◌||◌, ◌==◌, if◌then◌else◌,
}
use edge_os.Prelude.Int.{ℤ, pos, neg_one}
use edge_os.Block.Transfer.{
  Attempt, moved, failed, Driver, transfer, transfer_fuel, half_batch, wrap, block_read_sectors,
  block_write_sectors, block_batch_max_sectors,
}

-- The calls in `h` that succeeded moved the sectors from `lba` up to `lba + d`, each once and in
-- their order, to where they belong in the buffer.
pub data Tiled (lba size : ℕ) : List Attempt → ℕ → Type 0 where
  start : Tiled lba size [] 0
  more :
      (h : List Attempt) (d n : ℕ)
      → Tiled lba size h d
      → 1 ≤ n
      → Tiled lba size (moved (lba + d) n (d * size) ∷ h) (d + n)
  lost :
      (h : List Attempt) (d at n off : ℕ)
      → Tiled lba size h d
      → Tiled lba size (failed at n off ∷ h) d

-- How a transfer of `count` sectors ends: all of them are moved, or the driver failed on a
-- single sector, behind those that are moved.
pub data Outcome (lba size count : ℕ) : ℤ → List Attempt → Type 0 where
  complete : (h : List Attempt) → Tiled lba size h count → Outcome lba size count (pos 0) h
  broken :
      (h : List Attempt) (d : ℕ)
      → Tiled lba size h d
      → d < count
      → Outcome lba size count neg_one (failed (lba + d) 1 (d * size) ∷ h)

abbrev pub Ends : ℕ → ℕ → ℕ → Option (ℤ × List Attempt) → Type 0
Ends lba size count o =
    (r : ℤ) × (h : List Attempt) × (o ≡ some (r, h)) × Outcome lba size count r h

wrap_small : (n : ℕ) → n < 4294967296 → wrap n ≡ n
wrap_small n h = omega arith

half_batch-small : (n : ℕ) → 2 ≤ n → (1 ≤ half_batch n) × (half_batch n < n)
half_batch-small n h = (ground arith, ground arith)

mul_mono : (d c size : ℕ) → d ≤ c → d * size ≤ c * size
mul_mono zero c size h = omega arith
mul_mono (suc d) zero size h = absurd (omega arith)
mul_mono (suc d) (suc c) size h = let m = mul_mono d c size (omega arith) in omega arith

below : (d count size : ℕ) → d < count → size ≢ 0 → d * size < count * size
below d zero size h ne = absurd (omega arith)
below d (suc c) size h ne = let m = mul_mono d c size (omega arith) in omega arith

module _ (io : Driver) (lba size count : ℕ) (fits : lba + count ≤ 4294967296)
    (fits_buffer : count * size ≤ 4294967296) (size_ne : size ≢ 0) where
  at-eq : (d : ℕ) → d < count → wrap (lba + d) ≡ lba + d
  at-eq d h = wrap_small (lba + d) (omega arith)

  off-eq : (d : ℕ) → d < count → wrap (d * size) ≡ d * size
  off-eq d h = wrap_small (d * size) (let b = below d count size h size_ne in omega arith)

  pub transfer-Ends :
      (fuel : ℕ) (h : List Attempt) (d m : ℕ)
      → Tiled lba size h d
      → d ≤ count
      → 1 ≤ m
      → (count - d) + m < fuel
      → Ends lba size count (transfer fuel io h lba count size d m)
  unfolding transfer
  transfer-Ends zero h d m t le one enough = absurd (omega arith)
  transfer-Ends (suc fuel) h d m t le one enough =
      pick (Ends lba size count) (not (ltb d count)) _ _
        (λ stop.
          let all : d ≡ count = ground arith in
          (pos 0, h, refl, complete h (subst (Tiled lba size h) all t)))
        (λ go.
          let less : d < count = ground arith in
          let n = min (count - d) m in
          pick (Ends lba size count) (io h (wrap (lba + d)) n (wrap (d * size))) _ _
            (λ good.
              transfer-Ends fuel (moved (wrap (lba + d)) n (wrap (d * size)) ∷ h) (d + n) m
                (rw (at-eq d less, off-eq d less) (more h d n t (omega arith))) (omega arith) one
                (omega arith))
            (λ bad.
              pick (Ends lba size count) (leb n 1) _ _
                (λ single.
                  let alone : n ≡ 1 = ground arith in
                  (
                    neg_one,
                    _,
                    refl,
                    rw (at-eq d less, off-eq d less)
                        (subst
                          (λ z. Outcome lba size count neg_one (failed (lba + d) z (d * size) ∷ h))
                          (sym alone) (broken h d t less)),
                  ))
                (λ many.
                  let two : 2 ≤ n = ground arith in
                  let half = half_batch-small n two in
                  transfer-Ends fuel (failed (wrap (lba + d)) n (wrap (d * size)) ∷ h) d
                    (half_batch n) (lost h d _ n _ t) le half.0 (omega arith))))

-- A read of a device that is there, and a write, of sectors that end within 2^32 and fit the
-- buffer, ends whatever the driver answers. It returns 0 after calls that moved each of the
-- sectors once, in order, to its place in the buffer, or it returns -1 after the driver failed
-- on a single sector, with the sectors before it moved.
pub block_sectors-Ends :
    (io : Driver) (lba size count : ℕ)
    → lba + count ≤ 4294967296
    → count * size ≤ 4294967296
    → size ≢ 0
    → Ends lba size count (block_read_sectors true io size lba count)
      × Ends lba size count (block_write_sectors true io size lba count)
unfolding block_read_sectors block_write_sectors
block_sectors-Ends io lba size count fits fits_buffer ne = (both, both)
  where
    both : Ends lba size count (
        if not true || (size == 0)
        then some (neg_one, [])
        else if count == 0
        then some (pos 0, [])
        else transfer (transfer_fuel count) io [] lba count size 0 block_batch_max_sectors)
    both =
        pick (Ends lba size count) (size == 0) _ _ (λ z. absurd (ground arith))
          (λ nz.
            pick (Ends lba size count) (count == 0) _ _
              (λ empty.
                let none_left : 0 ≡ count = ground arith in
                (pos 0, [], refl, complete [] (subst (Tiled lba size []) none_left start)))
              (λ some_left.
                transfer-Ends io lba size count fits fits_buffer ne (transfer_fuel count) [] 0
                  block_batch_max_sectors start (omega arith) (omega arith) (omega arith)))
