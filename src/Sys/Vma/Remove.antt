-- ===== src/Sys/Vma/Remove.antt =====
-- src/sys/syscall.c: what `user_vma_remove_range` takes away.
use edge_os.Prelude.{
  ℕ, Bool, true, false, ◌+◌, ◌≤◌, ◌<◌, ◌≡◌, ◌≢◌, refl, sym, ap, ◌∙◌, ◌⊎◌, inl, inr, none, some,
  List, get_elem?, get_elem?-set_ne, set, if◌then◌else◌, ltb, leb, ◌&&◌, arith, Bool-cases,
  Option-cases,
}
use edge_os.Task.{UserVma, no_vma}
use edge_os.Sys.Vma.{is_free, user_vma_find_free_slot, split_upper, cut_slot, misses}
use edge_os.Sys.Vma.Ranges.{
  total, holds, free_one, around, total-set, found_slot, no_slot, le-total,
}

abbrev pub within : ℕ → ℕ → ℕ → Bool
within s e a = leb s a && ltb a e

-- A free slot is not the slot of a mapping.
distinct :
    (vs : List UserVma) (j i : ℕ) (u v : UserVma)
    → get_elem? vs j ≡ some u
    → is_free u ≡ true
    → get_elem? vs i ≡ some v
    → is_free v ≡ false
    → j ≢ i
distinct vs j i u v there free at mapped q =
    let p : some u ≡ some v = sym there ∙ (ap (get_elem? vs) q ∙ at) in
    let r : u ≡ v = cc in let t : true ≡ false = sym free ∙ (ap is_free r ∙ mapped) in cc

pub split_upper-some :
    (e slot : ℕ) (v : UserVma) (vs : List UserVma)
    → user_vma_find_free_slot vs ≡ some slot
    → split_upper e v vs ≡ set vs slot (record v { start = e })
unfolding split_upper
split_upper-some e slot v vs h =
    ap
      (λ o. elim o as (λ x. List UserVma) [
        | none ↦ vs
        | some k ↦ set vs k (record v { start = e })
      ])
      h

pub split_upper-none :
    (e : ℕ) (v : UserVma) (vs : List UserVma)
    → user_vma_find_free_slot vs ≡ none
    → split_upper e v vs ≡ vs
unfolding split_upper
split_upper-none e v vs h =
    ap
      (λ o. elim o as (λ x. List UserVma) [
        | none ↦ vs
        | some k ↦ set vs k (record v { start = e })
      ])
      h

-- The slot that is split is not the one that takes the upper half.
pub split-at :
    (e i : ℕ) (v : UserVma) (vs : List UserVma)
    → get_elem? vs i ≡ some v
    → is_free v ≡ false
    → get_elem? (split_upper e v vs) i ≡ some v
split-at e i v vs at mapped = elim (Option-cases (user_vma_find_free_slot vs)) [
  | inl q ↦ rw (split_upper-none e v vs q) at
  | inr (slot, q) ↦
      let (u, there, free) = found_slot vs slot q in
      rw (split_upper-some e slot v vs q)
        (get_elem?-set_ne vs _ (distinct vs slot i u v there free at mapped) ∙ at)
]

-- A split that finds a free slot adds the upper half.
split-total :
    (f : UserVma → ℕ) (e slot : ℕ) (v : UserVma) (vs : List UserVma)
    → user_vma_find_free_slot vs ≡ some slot
    → (u : UserVma) × (is_free u ≡ true)
      × (total f (split_upper e v vs) + f u ≡ total f vs + f (record v { start = e }))
split-total f e slot v vs h =
    let (u, there, free) = found_slot vs slot h in
    (u, free, rw (split_upper-some e slot v vs h) (total-set f vs slot u _ there))

-- What a turn makes of the count of each address, of the free slots, and of the mappings that go
-- beyond the range on both sides.
module _ (s e i : ℕ) (v : UserVma) (vs : List UserVma) (order : s < e)
    (at : get_elem? vs i ≡ some v) (meets : misses s e v ≡ false) where
  pub mapped : is_free v ≡ false
  mapped = ground arith

  -- a mapping that takes the place of `v` and keeps what is outside the range
  pub record Trimmed (w : UserVma) : Type 0 where
    pub same : (a : ℕ) → holds a w + (if within s e a then holds a v else 0) ≡ holds a v
    pub inside : around s e w ≡ 0
    pub freer : free_one v ≤ free_one w

  abbrev pub lower : UserVma
  lower = record v { end = s }

  abbrev pub upper : UserVma
  upper = record v { start = e }

  whole : leb s v.start ≡ true → leb v.end e ≡ true → Trimmed no_vma
  whole p q = record { same = λ a. ground arith; inside = ground arith; freer = ground arith }

  from_below : leb s v.start ≡ true → leb v.end e ≡ false → Trimmed upper
  from_below p q = record { same = λ a. ground arith; inside = ground arith; freer = ground arith }

  from_above : leb s v.start ≡ false → leb v.end e ≡ true → Trimmed lower
  from_above p q = record { same = λ a. ground arith; inside = ground arith; freer = ground arith }

  -- The four ways to cut.
  pub cut-shape :
      ((w : UserVma) × (cut_slot s e i v vs ≡ set vs i w) × Trimmed w)
      ⊎ ((v.start < s) × (e < v.end) × (cut_slot s e i v vs ≡ set (split_upper e v vs) i lower))
  unfolding cut_slot
  cut-shape = elim (Bool-cases (leb s v.start)) [
    | inl p ↦ elim (Bool-cases (leb v.end e)) [
      | inl q ↦ inl (no_vma, rw (p, q) refl, whole p q)
      | inr q ↦ inl (upper, rw (p, q) refl, from_below p q)
    ]
    | inr p ↦ elim (Bool-cases (leb v.end e)) [
      | inl q ↦ inl (lower, rw (p, q) refl, from_above p q)
      | inr q ↦ inr (ground arith, ground arith, rw (p, q) refl)
    ]
  ]

  halves :
      (a : ℕ)
      → v.start < s
      → e < v.end
      → holds a lower + holds a upper + (if within s e a then holds a v else 0) ≡ holds a v
  halves a p q = ground arith

  -- a count that is at least 0 at a free slot, after a split
  split-count :
      (f : UserVma → ℕ)
      → (cut_slot s e i v vs ≡ set (split_upper e v vs) i lower)
      → ((slot : ℕ) × (u : UserVma) × (is_free u ≡ true)
          × (total f (cut_slot s e i v vs) + f v + f u ≡ total f vs + f upper + f lower))
        ⊎ ((total free_one vs ≡ 0) × (total f (cut_slot s e i v vs) + f v ≡ total f vs + f lower))
  split-count f eq = elim (Option-cases (user_vma_find_free_slot vs)) [
    | inl none_left ↦
        let stays : split_upper e v vs ≡ vs = split_upper-none e v vs none_left in
        inr (no_slot vs none_left, rw (eq, stays) (total-set f vs i v lower at))
    | inr (slot, h) ↦
        let (u, free, sum) = split-total f e slot v vs h in
        inl (
          slot,
          u,
          free,
          rw eq (
              omega (
                arith,
                sum,
                total-set f (split_upper e v vs) i v lower (split-at e i v vs at mapped),
              )),
        )
  ]

  pub cut_le :
      (a : ℕ)
      → total (holds a) (cut_slot s e i v vs) + (if within s e a then holds a v else 0)
        ≤ total (holds a) vs
  cut_le a = elim cut-shape [
    | inl (w, eq, t) ↦ rw eq (omega (arith, t.same a, total-set (holds a) vs i v w at))
    | inr (p, q, eq) ↦ elim (split-count (holds a) eq) [
      | inl (slot, u, free, sum) ↦
          let empty : holds a u ≡ 0 = ground arith in omega (arith, halves a p q, sum, empty)
      | inr (full, sum) ↦ omega (arith, halves a p q, sum)
    ]
  ]

  pub cut_ge :
      (a : ℕ)
      → total (around s e) vs ≤ total free_one vs
      → total (holds a) vs
        ≤ total (holds a) (cut_slot s e i v vs) + (if within s e a then holds a v else 0)
  cut_ge a room = elim cut-shape [
    | inl (w, eq, t) ↦ rw eq (omega (arith, t.same a, total-set (holds a) vs i v w at))
    | inr (p, q, eq) ↦ elim (split-count (holds a) eq) [
      | inl (slot, u, free, sum) ↦
          let empty : holds a u ≡ 0 = ground arith in omega (arith, halves a p q, sum, empty)
      | inr (full, sum) ↦
          let one : around s e v ≡ 1 = ground arith in
          absurd (omega (arith, full, one, le-total (around s e) vs i v at))
    ]
  ]

  pub cut_room :
      total (around s e) vs ≤ total free_one vs
      → total (around s e) (cut_slot s e i v vs) ≤ total free_one (cut_slot s e i v vs)
  cut_room room = elim cut-shape [
    | inl (w, eq, t) ↦ rw eq (
        omega (
          arith,
          t.inside,
          t.freer,
          total-set (around s e) vs i v w at,
          total-set free_one vs i v w at,
        ))
    | inr (p, q, eq) ↦
        let one : around s e v ≡ 1 = ground arith in
        let halves_inside : (around s e upper ≡ 0) × (around s e lower ≡ 0) =
          (ground arith, ground arith) in
        elim (split-count (around s e) eq) [
          | inl (slot, u, free, sum) ↦ elim (split-count free_one eq) [
            | inl (slot', u', free', sum') ↦
                let ones : (free_one u' ≡ 1) × (free_one v ≡ 0) = (ground arith, ground arith) in
                let none_around : around s e u ≡ 0 = ground arith in
                omega (arith, one, halves_inside, sum, sum', ones, none_around)
            | inr (full, sum') ↦ absurd (omega (arith, full, one, le-total (around s e) vs i v at))
          ]
          | inr (full, sum) ↦ absurd (omega (arith, full, one, le-total (around s e) vs i v at))
        ]
  ]
