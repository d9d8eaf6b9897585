-- ===== src/Dll/Mem.antt =====
-- Membership, distinctness and removal for lists of addresses, as Boolean functions.
use edge_os.Prelude.{
  ℕ, ◌≡◌, refl, ◌≢◌, sym, ◌∙◌, Bool, true, false, ◌||◌, List, [], ◌∷◌, ◌++◌, arith, ◌==◌,
  if◌then◌else◌, length, suc,
}
use mathlib.Core.Bool.{false≢true}

abbrev pub has : ℕ → List ℕ → Bool
has a [] = false
has a (x ∷ xs) = (a == x) || has a xs

abbrev pub Distinct : List ℕ → Type 0
Distinct [] = Unit {0}
Distinct (x ∷ xs) = (has x xs ≡ false) × Distinct xs

-- the first occurrence goes
abbrev pub erase : ℕ → List ℕ → List ℕ
erase t [] = []
erase t (x ∷ xs) = if x == t then xs else x ∷ erase t xs

abbrev pub head_or : List ℕ → ℕ → ℕ
head_or [] d = d
head_or (x ∷ xs) d = x

abbrev pub last_or : ℕ → List ℕ → ℕ
last_or d [] = d
last_or d (x ∷ xs) = last_or x xs

pub has-here : (a x : ℕ) (xs : List ℕ) → a ≡ x → has a (x ∷ xs) ≡ true
has-here a x xs h = ground arith

pub has-there : (a x : ℕ) (xs : List ℕ) → has a xs ≡ true → has a (x ∷ xs) ≡ true
has-there a x xs h = ground arith

pub has-rest : (a x : ℕ) (xs : List ℕ) → a ≢ x → has a (x ∷ xs) ≡ true → has a xs ≡ true
has-rest a x xs ne h = ground arith

-- two addresses that membership tells apart
pub ne_of_has : {a b : ℕ} (xs : List ℕ) → has a xs ≡ true → has b xs ≡ false → a ≢ b
ne_of_has xs h out e = false≢true (sym out ∙ rw (← e) h)

pub last_or-has : (x : ℕ) (xs : List ℕ) → has (last_or x xs) (x ∷ xs) ≡ true
last_or-has x [] = ground arith
last_or-has x (y ∷ ys) = has-there _ x (y ∷ ys) (last_or-has y ys)

pub has-snoc : (a t : ℕ) (xs : List ℕ) → has a (xs ++ (t ∷ [])) ≡ ((a == t) || has a xs)
has-snoc a t [] = refl
has-snoc a t (x ∷ xs) = ground (arith, has-snoc a t xs)

pub erase_absent : (t : ℕ) (xs : List ℕ) → has t xs ≡ false → erase t xs ≡ xs
erase_absent t [] h = refl
erase_absent t (x ∷ xs) h = ground (arith, erase_absent t xs)

-- On distinct addresses removal leaves exactly the others.
pub has-erase :
    (a t : ℕ) (xs : List ℕ)
    → Distinct xs
    → has a (erase t xs) ≡ (if a == t then false else has a xs)
has-erase a t [] d = ground arith
has-erase a t (x ∷ xs) d = ground (arith, has-erase a t xs d.1)

pub erase-Distinct : (t : ℕ) (xs : List ℕ) → Distinct xs → Distinct (erase t xs)
erase-Distinct t [] d = tt
erase-Distinct t (x ∷ xs) d = ground (arith, erase-Distinct t xs d.1, has-erase x t xs d.1)

pub snoc-Distinct :
    (t : ℕ) (xs : List ℕ) → Distinct xs → has t xs ≡ false → Distinct (xs ++ (t ∷ []))
snoc-Distinct t [] d h = (refl, tt)
snoc-Distinct t (x ∷ xs) d h = ground (arith, snoc-Distinct t xs d.1, has-snoc x t xs)

pub head_or-has : (xs : List ℕ) → head_or xs 0 ≢ 0 → has (head_or xs 0) xs ≡ true
head_or-has [] h = absurd (h refl)
head_or-has (x ∷ xs) h = ground arith

pub length-erase : (t : ℕ) (xs : List ℕ) → has t xs ≡ true → suc (length (erase t xs)) ≡ length xs
length-erase t [] h = ground arith
length-erase t (x ∷ xs) h = ground (arith, length-erase t xs)

pub erase-same : (x t : ℕ) (xs : List ℕ) → x ≡ t → erase t (x ∷ xs) ≡ xs
erase-same x t xs h = ground arith

pub erase-other : (x t : ℕ) (xs : List ℕ) → x ≢ t → erase t (x ∷ xs) ≡ x ∷ erase t xs
erase-other x t xs h = ground arith

pub not-has-rest : (a x : ℕ) (xs : List ℕ) → has a (x ∷ xs) ≡ false → has a xs ≡ false
not-has-rest a x xs h = ground arith

-- What is left after a removal was there, and is not what was removed; and conversely.
pub erase-has :
    (a t : ℕ) (xs : List ℕ) → Distinct xs → has a (erase t xs) ≡ true → (a ≢ t) × (has a xs ≡ true)
erase-has a t xs d h = (ground (arith, has-erase a t xs d), ground (arith, has-erase a t xs d))

pub has-erase_ne :
    (a t : ℕ) (xs : List ℕ) → Distinct xs → a ≢ t → has a xs ≡ true → has a (erase t xs) ≡ true
has-erase_ne a t xs d ne h = ground (arith, has-erase a t xs d)
