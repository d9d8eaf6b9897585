-- ===== src/Sys/Vma/Ranges.antt =====
-- src/sys/syscall.c: how many mappings hold an address, and what the write of a slot does to such
-- counts.
use edge_os.Prelude.{
  ℕ, zero, suc, true, false, ◌+◌, ◌≤◌, ◌<◌, ◌≡◌, refl, none, some, List, [], ◌∷◌, get_elem?, set,
  if◌then◌else◌, ◌⊎◌, inl, inr, ap, Option-cases, ltb, leb, ◌&&◌, arith, Bool-cases,
}
use edge_os.Task.{UserVma}
use edge_os.Sys.Vma.{is_free, user_vma_find_free_slot}

unfoldable pub total : (UserVma → ℕ) → List UserVma → ℕ
total f [] = 0
total f (v ∷ vs) = f v + total f vs

-- 1 for a mapping that holds the address, for a free slot, and for a mapping that goes beyond the
-- range on both sides
abbrev pub holds : ℕ → UserVma → ℕ
holds a v = if leb v.start a && ltb a v.end then 1 else 0

abbrev pub free_one : UserVma → ℕ
free_one v = if is_free v then 1 else 0

abbrev pub around : ℕ → ℕ → UserVma → ℕ
around s e v = if ltb v.start s && ltb e v.end then 1 else 0

unfoldable pub holders : ℕ → List UserVma → ℕ
holders a vs = total (holds a) vs

pub total-set :
    (f : UserVma → ℕ) (vs : List UserVma) (i : ℕ) (v w : UserVma)
    → get_elem? vs i ≡ some v
    → total f (set vs i w) + f v ≡ total f vs + f w
unfolding total
total-set f [] i v w h = absurd (cc)
total-set f (x ∷ vs) zero v w h = ground arith
total-set f (x ∷ vs) (suc i) v w h = omega (arith, total-set f vs i v w h)

-- A slot of the written array is the new one, or an old one.
pub get-set :
    (vs : List UserVma) (i j : ℕ) (w u : UserVma)
    → get_elem? (set vs i w) j ≡ some u
    → ((j ≡ i) × (u ≡ w)) ⊎ (get_elem? vs j ≡ some u)
get-set [] i j w u h = inr h
get-set (x ∷ vs) zero zero w u h = inl (refl, ground arith)
get-set (x ∷ vs) zero (suc j) w u h = inr h
get-set (x ∷ vs) (suc i) zero w u h = inr h
get-set (x ∷ vs) (suc i) (suc j) w u h = elim (get-set vs i j w u h) [
  | inl p ↦ inl (ap suc p.0, p.1)
  | inr q ↦ inr q
]

-- The search goes on behind a mapping.
find-later :
    (v : UserVma) (vs : List UserVma) (i : ℕ)
    → is_free v ≡ false
    → user_vma_find_free_slot (v ∷ vs) ≡ some i
    → (k : ℕ) × (user_vma_find_free_slot vs ≡ some k) × (i ≡ suc k)
unfolding user_vma_find_free_slot
find-later v vs i e h = elim (Option-cases (user_vma_find_free_slot vs)) [
  | inl q ↦ absurd (ground arith)
  | inr (k, q) ↦ (k, q, ground arith)
]

find-now :
    (v : UserVma) (vs : List UserVma) (i : ℕ)
    → is_free v ≡ true
    → user_vma_find_free_slot (v ∷ vs) ≡ some i
    → i ≡ 0
unfolding user_vma_find_free_slot
find-now v vs i e h = ground arith

-- The slot that the search finds is there and is free, and the search fails only if none is.
pub found_slot :
    (vs : List UserVma) (i : ℕ)
    → user_vma_find_free_slot vs ≡ some i
    → (v : UserVma) × (get_elem? vs i ≡ some v) × (is_free v ≡ true)
found_slot [] i h = absurd (unfold user_vma_find_free_slot in cc)
found_slot (v ∷ vs) i h = elim (Bool-cases (is_free v)) [
  | inl e ↦ (v, rw (find-now v vs i e h) refl, e)
  | inr e ↦
      let (k, q, p) = find-later v vs i e h in let (u, at, f) = found_slot vs k q in (u, rw p at, f)
]

pub no_slot : (vs : List UserVma) → user_vma_find_free_slot vs ≡ none → total free_one vs ≡ 0
unfolding user_vma_find_free_slot total
no_slot [] h = refl
no_slot (v ∷ vs) h = elim (Option-cases (user_vma_find_free_slot vs)) [
  | inl q ↦ ground (arith, no_slot vs q)
  | inr (k, q) ↦ absurd (ground arith)
]

pub some_slot :
    (vs : List UserVma) (i : ℕ) → user_vma_find_free_slot vs ≡ some i → 0 < total free_one vs
unfolding total
some_slot [] i h = absurd (unfold user_vma_find_free_slot in cc)
some_slot (v ∷ vs) i h = elim (Bool-cases (is_free v)) [
  | inl e ↦ ground arith
  | inr e ↦ let (k, q, p) = find-later v vs i e h in omega (arith, some_slot vs k q)
]

-- A count is 0 if it is 0 in each slot.
pub total-zero :
    (f : UserVma → ℕ) (vs : List UserVma)
    → ((i : ℕ) (v : UserVma) → get_elem? vs i ≡ some v → f v ≡ 0)
    → total f vs ≡ 0
unfolding total
total-zero f [] h = refl
total-zero f (v ∷ vs) h = omega (arith, h 0 v refl, total-zero f vs (λ i w e. h (suc i) w e))

-- A slot counts for no more than the whole.
pub le-total :
    (f : UserVma → ℕ) (vs : List UserVma) (i : ℕ) (v : UserVma)
    → get_elem? vs i ≡ some v
    → f v ≤ total f vs
unfolding total
le-total f [] i v h = absurd (cc)
le-total f (x ∷ vs) zero v h = ground arith
le-total f (x ∷ vs) (suc i) v h = omega (arith, le-total f vs i v h)

pub total_mono :
    (f g : UserVma → ℕ)
    → ((v : UserVma) → f v ≤ g v)
    → (vs : List UserVma) → total f vs ≤ total g vs
unfolding total
total_mono f g h [] = omega arith
total_mono f g h (v ∷ vs) = omega (arith, h v, total_mono f g h vs)
