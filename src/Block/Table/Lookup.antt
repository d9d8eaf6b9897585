-- ===== src/Block/Table/Lookup.antt =====
-- src/block/block.c: a device that is registered is found again.
use edge_os.Prelude.{
  ℕ, zero, suc, ◌+◌, ◌≡◌, refl, sym, ap, ◌∙◌, ◌<◌, Option, none, some, List, [], ◌∷◌, ◌++◌, arith,
  ◌==◌, length, get_elem?, length-append, Bool-cases, inl, inr,
}
use edge_os.Prelude.Int.{ℤ, pos}
use edge_os.Str.Chars.{strcmp}
use edge_os.Str.Chars.Compare.{strcmp_iff}
use edge_os.Block.Table.{
  Device, Devices, block_max_devices, stored_name, block_register, block_get, find_from, block_find,
}

get_elem?-append :
    {A : Type 0} (xs : List A) (x : A) → get_elem? (xs ++ (x ∷ [])) (length xs) ≡ some x
get_elem?-append [] x = refl
get_elem?-append (y ∷ xs) x = get_elem?-append xs x

find_from-new :
    (i : ℕ) (ds : Devices) (d : Device)
    → find_from i ds d.name ≡ none
    → find_from i (ds ++ (d ∷ [])) d.name ≡ some (i + length ds)
unfolding find_from
find_from-new i [] d e = let same = (strcmp_iff d.name d.name).1 refl in ground arith
find_from-new i (x ∷ ds) d e = elim (Bool-cases (strcmp x.name d.name == 0)) [
  | inl q ↦ absurd (ground arith)
  | inr q ↦ let h = find_from-new (i + 1) ds d (ground arith) in ground arith
]

get_elem?-kept :
    {A : Type 0} (xs ys : List A) (i : ℕ) → i < length xs → get_elem? (xs ++ ys) i ≡ get_elem? xs i
get_elem?-kept [] ys i h = absurd (omega arith)
get_elem?-kept (x ∷ xs) ys zero h = refl
get_elem?-kept (x ∷ xs) ys (suc i) h = get_elem?-kept xs ys i (omega arith)

block_get-small : (ds : Devices) (i : ℕ) → i < length ds → block_get ds (pos i) ≡ get_elem? ds i
unfolding block_get
block_get-small ds i h = ground arith

module _ (ds : Devices) (name : Option (List ℕ)) (size count start driver : ℕ) where
  abbrev pub registered : ℤ × Devices
  registered = block_register ds name size count start driver

  abbrev pub device : Device
  device = record {
    name = stored_name name;
    sector_size = size;
    sector_count = count;
    start_lba = start;
    driver = driver;
  }

  registered-eq :
      length ds < block_max_devices → registered ≡ (pos (length ds), ds ++ (device ∷ []))
  unfolding block_register
  registered-eq h = ground arith

  -- Where the table is not full and no device has the name, as far as the field holds it, the
  -- registration returns the index of the new device, the search for the name and the access by
  -- the index then find that device, and every other index gives the device that it gave.
  pub block_register-find :
      length ds < block_max_devices
      → block_find ds (stored_name name) ≡ none
      → (registered.0 ≡ pos (length ds))
        × (block_find registered.1 (stored_name name) ≡ some (length ds))
        × (block_get registered.1 (pos (length ds)) ≡ some device)
        × ((i : ℕ) → i < length ds → block_get registered.1 (pos i) ≡ block_get ds (pos i))
  block_register-find small fresh =
      let longer = length-append ds (device ∷ []) in
      rw (registered-eq small) (
        refl,
        unfold block_find in (find_from-new 0 ds device fresh ∙ ap some (omega arith)),
        block_get-small (ds ++ (device ∷ [])) (length ds) (omega arith)
            ∙ get_elem?-append ds device,
        λ i h.
            block_get-small (ds ++ (device ∷ [])) i (omega arith)
            ∙ get_elem?-kept ds (device ∷ []) i h
            ∙ sym (block_get-small ds i h),
      )
