-- ===== src/Vfs/Mounts/Longest.antt =====
-- src/vfs/vfs.c: which mount `vfs_find_mount` chooses.
use edge_os.Prelude.{
  pick, ℕ, Bool, true, false, ◌+◌, ◌≤◌, ◌<◌, ◌≡◌, refl, ◌⊎◌, inl, inr, Option, none, some, List, [],
  ◌∷◌, arith, leb, ◌&&◌,
}
use edge_os.Str.Chars.{strlen}
use edge_os.Vfs.Mounts.{Superblock, covers, find_mount_from, vfs_find_mount}

abbrev pub In : Superblock → List Superblock → Type 0
In m [] = ⊥
In m (x ∷ xs) = (m ≡ x) ⊎ In m xs

-- the length of the mount point of the best mount so far and one more, or 0
abbrev pub reach : Option Superblock → ℕ
reach none = 0
reach (some m) = strlen m.mountpoint + 1

-- What the search gives, from the best mount before on: a mount that covers the path, and none
-- that covers it has a longer mount point.
pub record Chosen (path : List ℕ) (ms : List Superblock) (best o : Option Superblock) : Type 0 where
  pub keeps : reach best ≤ reach o
  pub longest :
      (m : Superblock) → In m ms → covers path m.mountpoint ≡ true → strlen m.mountpoint < reach o
  pub origin :
      (o ≡ best) ⊎ ((r : Superblock) × (o ≡ some r) × In r ms × (covers path r.mountpoint ≡ true))

both : (a b : Bool) → (a && b) ≡ true → (a ≡ true) × (b ≡ true)
both a b h = (ground arith, ground arith)

neither : (a b : Bool) → (a && b) ≡ false → b ≡ true → a ≡ false
neither a b h e = ground arith

module _ (path : List ℕ) where
  from-best :
      (sb : Superblock) (rest : List Superblock) (o : Option Superblock)
      → covers path sb.mountpoint ≡ true
      → (o ≡ some sb)
        ⊎ ((r : Superblock) × (o ≡ some r) × In r rest × (covers path r.mountpoint ≡ true))
      → (r : Superblock) × (o ≡ some r) × In r (sb ∷ rest) × (covers path r.mountpoint ≡ true)
  from-best sb rest o c (inl e) = (sb, e, inl refl, c)
  from-best sb rest o c (inr (r, e, i, d)) = (r, e, inr i, d)

  widened :
      (sb : Superblock) (rest : List Superblock) (best o : Option Superblock)
      → (o ≡ best)
        ⊎ ((r : Superblock) × (o ≡ some r) × In r rest × (covers path r.mountpoint ≡ true))
      → (o ≡ best)
        ⊎ ((r : Superblock) × (o ≡ some r) × In r (sb ∷ rest) × (covers path r.mountpoint ≡ true))
  widened sb rest best o (inl e) = inl e
  widened sb rest best o (inr (r, e, i, d)) = inr (r, e, inr i, d)

  either :
      (sb : Superblock) (rest : List Superblock) (n : ℕ)
      → (covers path sb.mountpoint ≡ true → strlen sb.mountpoint < n)
      → ((m : Superblock) → In m rest → covers path m.mountpoint ≡ true → strlen m.mountpoint < n)
      → (m : Superblock) → In m (sb ∷ rest)
      → covers path m.mountpoint ≡ true
      → strlen m.mountpoint < n
  either sb rest n f g m (inl e) c = rw e (f (rw e at c))
  either sb rest n f g m (inr i) c = g m i c

  find_mount_from-Chosen :
      (ms : List Superblock) (best : Option Superblock) (longest : ℕ)
      → longest ≡ reach best
      → Chosen path ms best (find_mount_from path ms best longest)
  unfolding find_mount_from
  find_mount_from-Chosen [] best longest e = record {
    keeps = omega arith;
    longest = λ m i c. absurd i;
    origin = inl refl;
  }
  find_mount_from-Chosen (sb ∷ rest) best longest e =
      let ml = strlen sb.mountpoint in
      pick (Chosen path (sb ∷ rest) best) (leb longest ml && covers path sb.mountpoint) _ _
        (λ yes.
          let (long, c) = both (leb longest ml) _ yes in
          let next = find_mount_from-Chosen rest (some sb) (ml + 1) refl in
          let keeps = next.keeps in
          record {
            keeps = ground arith;
            longest = either sb rest _ (λ c'. omega arith) next.longest;
            origin = inr (from-best sb rest _ c next.origin);
          })
        (λ no.
          let next = find_mount_from-Chosen rest best longest e in
          let keeps = next.keeps in
          record {
            keeps = keeps;
            longest =
                either sb rest _ (λ c. let short = neither (leb longest ml) _ no c in ground arith)
                  next.longest;
            origin = widened sb rest best _ next.origin;
          })

-- `vfs_find_mount` gives a mount of the table that covers the path, with the longest mount point
-- of all that cover it, and NULL only where none covers it.
pub vfs_find_mount-Chosen :
    (mounts : List Superblock) (path : List ℕ)
    → Chosen path mounts none (vfs_find_mount mounts path)
unfolding vfs_find_mount
vfs_find_mount-Chosen mounts path = find_mount_from-Chosen path mounts none 0 refl
