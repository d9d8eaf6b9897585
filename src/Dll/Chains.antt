-- ===== src/Dll/Chains.antt =====
-- What it is for the two link fields to hold a list of addresses.
use edge_os.Prelude.{ℕ, ◌≡◌, refl, ◌≢◌, true, false, List, [], ◌∷◌, arith, ℕ_discrete}
use edge_os.Dll.Mem.{has, Distinct, head_or, has-here, has-there, has-rest, ne_of_has}

-- The cells `xs` follow one another, the first after `prev`, the last before NULL.
abbrev pub Chain : (pv nx : ℕ → ℕ) → ℕ → List ℕ → Type 0
Chain pv nx prev [] = Unit {0}
Chain pv nx prev (x ∷ xs) = (x ≢ 0) × (pv x ≡ prev) × (nx x ≡ head_or xs 0) × Chain pv nx x xs

-- A list that a head pointer leads into, of cells that are all different.
pub record IsDll (pv nx : ℕ → ℕ) (head : ℕ) (xs : List ℕ) : Type 0 where
  pub chain : Chain pv nx 0 xs
  pub head_eq : head ≡ head_or xs 0
  pub distinct : Distinct xs

-- A chain survives any change that spares its own cells.
pub Chain-frame :
    (pv nx pv' nx' : ℕ → ℕ) (prev : ℕ) (xs : List ℕ)
    → Chain pv nx prev xs
    → ((a : ℕ) → has a xs ≡ true → (pv' a ≡ pv a) × (nx' a ≡ nx a))
    → Chain pv' nx' prev xs
Chain-frame pv nx pv' nx' prev [] c same = tt
Chain-frame pv nx pv' nx' prev (x ∷ xs) c same =
    let own = same x (ground arith) in
    (
      c.0,
      ground arith,
      ground arith,
      Chain-frame pv nx pv' nx' x xs c.3 (λ a h. same a (ground arith)),
    )

pub not-has_zero : (pv nx : ℕ → ℕ) (prev : ℕ) (xs : List ℕ) → Chain pv nx prev xs → has 0 xs ≡ false
not-has_zero pv nx prev [] c = refl
not-has_zero pv nx prev (x ∷ xs) c = ground (arith, not-has_zero pv nx x xs c.3)

-- The successor of a cell is another cell, or NULL.
pub next-has :
    (pv nx : ℕ → ℕ) (prev t : ℕ) (xs : List ℕ)
    → Chain pv nx prev xs
    → has t xs ≡ true
    → nx t ≢ 0
    → has (nx t) xs ≡ true
next-has pv nx prev t [] c h ne = ground arith
next-has pv nx prev t (x ∷ []) c h ne = ground arith
next-has pv nx prev t (x ∷ y ∷ ys) c h ne = ground (arith, next-has pv nx x t (y ∷ ys) c.3)

-- The predecessor of a cell is another cell, or what the chain hangs on.
pub prev-has :
    (pv nx : ℕ → ℕ) (prev t : ℕ) (xs : List ℕ)
    → Chain pv nx prev xs
    → has t xs ≡ true
    → pv t ≢ prev
    → has (pv t) xs ≡ true
prev-has pv nx prev t [] c h ne = ground arith
prev-has pv nx prev t (x ∷ xs) c h ne = elim (ℕ_discrete t x) [
  | yes e ↦ absurd (ne (rw e (c.1)))
  | no differs ↦ elim (ℕ_discrete (pv t) x) [
    | yes back ↦ has-here (pv t) x xs back
    | no other ↦ has-there (pv t) x xs (prev-has pv nx x t xs c.3 (has-rest t x xs differs h) other)
  ]
]

-- No cell is NULL.
pub cell-ne-zero :
    (pv nx : ℕ → ℕ) (prev a : ℕ) (xs : List ℕ) → Chain pv nx prev xs → has a xs ≡ true → a ≢ 0
cell-ne-zero pv nx prev a xs c h = ne_of_has xs h (not-has_zero pv nx prev xs c)
