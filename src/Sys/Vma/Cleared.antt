-- ===== src/Sys/Vma/Cleared.antt =====
-- src/sys/syscall.c: the loop of `user_vma_remove_range`, and what it leaves.
use edge_os.Prelude.{
  ℕ, zero, suc, Bool, true, false, ◌+◌, ◌≤◌, ◌<◌, ◌≡◌, refl, sym, ap, ◌∙◌, ◌⊎◌, inl, inr, none,
  some, List, [], ◌∷◌, get_elem?, set, length, length-set, if◌then◌else◌, leb, arith, Bool-cases,
  Option-cases, ℕ_discrete, subst,
}
use edge_os.Task.{UserVma, Space}
use edge_os.Sys.Vma.{
  user_vma_find_free_slot, split_upper, cut_slot, misses, cut_turn, cut_from, user_vma_remove_range,
  user_vma_recount, user_vma_refresh_mmap_hint,
}
use edge_os.Sys.Vma.Ranges.{
  total, holds, free_one, around, holders, get-set, some_slot, total-zero, total_mono,
}
use edge_os.Sys.Vma.Remove.{
  within, cut_le, cut_ge, cut_room, cut-shape, split-at, mapped, split_upper-some, split_upper-none,
}

-- No address is in two mappings.
pub record Apart (vs : List UserVma) : Type 0 where
  pub once : (a : ℕ) → holders a vs ≤ 1

-- The mappings that go beyond the range on both sides have free slots to be split into.
pub record Room (s e : ℕ) (vs : List UserVma) : Type 0 where
  pub enough : total (around s e) vs ≤ total free_one vs

-- The slots below `i` do not hold `a`.
record Clear (a i : ℕ) (vs : List UserVma) : Type 0 where
  clear : (j : ℕ) (u : UserVma) → j < i → get_elem? vs j ≡ some u → holds a u ≡ 0

get_self :
    (vs : List UserVma) (i : ℕ) (v w : UserVma)
    → get_elem? vs i ≡ some v
    → get_elem? (set vs i w) i ≡ some w
get_self [] i v w h = absurd (cc)
get_self (x ∷ vs) zero v w h = refl
get_self (x ∷ vs) (suc i) v w h = get_self vs i v w h

get_lt : (vs : List UserVma) (i : ℕ) (v : UserVma) → get_elem? vs i ≡ some v → i < length vs
get_lt [] i v h = absurd (cc)
get_lt (x ∷ vs) zero v h = omega arith
get_lt (x ∷ vs) (suc i) v h = omega (arith, get_lt vs i v h)

-- what the loop reads is the mapping of its slot
turn-read :
    (s e i : ℕ) (vs : List UserVma) (v : UserVma)
    → get_elem? vs i ≡ some v
    → cut_turn s e i vs ≡ (if misses s e v then vs else cut_slot s e i v vs)
unfolding cut_turn
turn-read s e i vs v q =
    ap
      (λ o. elim o as (λ x. List UserVma) [
        | none ↦ vs
        | some w ↦ if misses s e w then vs else cut_slot s e i w vs
      ])
      q

one_slot :
    (vs : List UserVma) (i : ℕ) (v u : UserVma)
    → get_elem? vs i ≡ some v
    → get_elem? vs i ≡ some u
    → v ≡ u
one_slot vs i v u p q = let r : some v ≡ some u = sym p ∙ q in cc

module _ (s e : ℕ) (order : s < e) where
  -- A turn does nothing, or cuts.
  turn-shape :
      (i : ℕ) (vs : List UserVma)
      → ((cut_turn s e i vs ≡ vs) × ((u : UserVma) → get_elem? vs i ≡ some u → misses s e u ≡ true))
        ⊎ ((v : UserVma) × (get_elem? vs i ≡ some v)
            × (misses s e v ≡ false)
            × (cut_turn s e i vs ≡ cut_slot s e i v vs))
  turn-shape i vs = elim (Option-cases (get_elem? vs i)) [
    | inl q ↦ inl (unfold cut_turn in ground arith, λ u h. absurd (ground arith))
    | inr (v, q) ↦ elim (Bool-cases (misses s e v)) [
      | inl m ↦ inl (
        turn-read s e i vs v q ∙ ap (λ b. if b then vs else cut_slot s e i v vs) m,
        λ u h. subst (λ w. misses s e w ≡ true) (one_slot vs i v u q h) m,
      )
      | inr m ↦
          inr (v, q, m, turn-read s e i vs v q ∙ ap (λ b. if b then vs else cut_slot s e i v vs) m)
    ]
  ]

  length-split : (v : UserVma) (vs : List UserVma) → length (split_upper e v vs) ≡ length vs
  length-split v vs = elim (Option-cases (user_vma_find_free_slot vs)) [
    | inl q ↦ ap length (split_upper-none e v vs q)
    | inr (k, q) ↦ ap length (split_upper-some e k v vs q) ∙ length-set vs k _
  ]

  length-cut :
      (i : ℕ) (v : UserVma) (vs : List UserVma)
      → get_elem? vs i ≡ some v
      → misses s e v ≡ false
      → length (cut_slot s e i v vs) ≡ length vs
  length-cut i v vs at m = elim (cut-shape s e i v vs order at m) [
    | inl (w, eq, t) ↦ ap length eq ∙ length-set vs i w
    | inr (p, q, eq) ↦ ap length eq ∙ (length-set (split_upper e v vs) i _ ∙ length-split v vs)
  ]

  turn_le : (i : ℕ) (vs : List UserVma) (a : ℕ) → holders a (cut_turn s e i vs) ≤ holders a vs
  unfolding holders
  turn_le i vs a = elim (turn-shape i vs) [
    | inl (eq, m) ↦ rw eq (omega arith)
    | inr (v, at, m, eq) ↦ rw eq (omega (arith, cut_le s e i v vs order at m a))
  ]

  turn_keep :
      (i : ℕ) (vs : List UserVma) (a : ℕ)
      → Room s e vs
      → within s e a ≡ false
      → holders a (cut_turn s e i vs) ≡ holders a vs
  unfolding holders
  turn_keep i vs a room out = elim (turn-shape i vs) [
    | inl (eq, m) ↦ ap (total (holds a)) eq
    | inr (v, at, m, eq) ↦
        let none_lost : (if within s e a then holds a v else 0) ≡ 0 = rw out refl in
        rw eq (
          omega (
            arith,
            none_lost,
            cut_le s e i v vs order at m a,
            cut_ge s e i v vs order at m a room.enough,
          ))
  ]

  turn-Room : (i : ℕ) (vs : List UserVma) → Room s e vs → Room s e (cut_turn s e i vs)
  turn-Room i vs room = elim (turn-shape i vs) [
    | inl (eq, m) ↦ record { enough = rw eq room.enough }
    | inr (v, at, m, eq) ↦ record { enough = rw eq (cut_room s e i v vs order at m room.enough) }
  ]

  length-turn : (i : ℕ) (vs : List UserVma) → length (cut_turn s e i vs) ≡ length vs
  length-turn i vs = elim (turn-shape i vs) [
    | inl (eq, m) ↦ ap length eq
    | inr (v, at, m, eq) ↦ ap length eq ∙ length-cut i v vs at m
  ]

  -- a slot of the array after the split is the upper half, or an old slot
  split-slot :
      (v : UserVma) (vs : List UserVma) (j : ℕ) (u : UserVma)
      → get_elem? (split_upper e v vs) j ≡ some u
      → (u ≡ record v { start = e }) ⊎ (get_elem? vs j ≡ some u)
  split-slot v vs j u h = elim (Option-cases (user_vma_find_free_slot vs)) [
    | inl q ↦ inr (subst (λ l. get_elem? l j ≡ some u) (split_upper-none e v vs q) h)
    | inr (k, q) ↦
        elim (get-set vs k j _ u
          (subst (λ l. get_elem? l j ≡ some u) (split_upper-some e k v vs q) h)) [
            | inl p ↦ inl p.1
            | inr p ↦ inr p
          ]
  ]

  module _ (a i : ℕ) (vs : List UserVma) (inside : within s e a ≡ true) (c : Clear a i vs) where
    open c use {clear}

    -- the slot `i` is cut, and the other slots are those of `l`
    set-Clear :
        (l : List UserVma) (v w : UserVma)
        → get_elem? l i ≡ some v
        → holds a w ≡ 0
        → ((j : ℕ) (u : UserVma) → j < i → get_elem? l j ≡ some u → holds a u ≡ 0)
        → Clear a (i + 1) (set l i w)
    set-Clear l v w at gone old = record {
      clear = λ j u lt h. elim (ℕ_discrete j i) [
        | yes q ↦
            let at_i : get_elem? (set l i w) i ≡ some u =
              subst (λ k. get_elem? (set l i w) k ≡ some u) q h in
            subst (λ x. holds a x ≡ 0) (one_slot (set l i w) i w u (get_self l i v w at) at_i) gone
        | no q ↦ elim (get-set l i j w u h) [
          | inl p ↦ absurd (q p.0)
          | inr p ↦ old j u (omega arith) p
        ]
      ];
    }

    turn-Clear : Clear a (i + 1) (cut_turn s e i vs)
    turn-Clear = elim (turn-shape i vs) [
      | inl (eq, m) ↦ rw eq (record {
        clear = λ j u lt h. elim (ℕ_discrete j i) [
          | yes q ↦
              let missed : misses s e u ≡ true = m u (subst (λ k. get_elem? vs k ≡ some u) q h) in
              ground arith
          | no q ↦ clear j u (omega arith) h
        ];
      })
      | inr (v, at, m, eq) ↦ rw eq (elim (cut-shape s e i v vs order at m) [
        | inl (w, eq', t) ↦
            let same : holds a w + holds a v ≡ holds a v =
              ap (λ (b : Bool). holds a w + (if b then holds a v else 0)) (sym inside) ∙ t.same a in
            rw eq' (set-Clear vs v w at (omega arith) clear)
        | inr (p, q, eq') ↦ rw eq' (
            set-Clear (split_upper e v vs) v (record v { end = s })
              (split-at e i v vs at (mapped s e i v vs order at m)) (ground arith)
              (λ j u lt h. elim (split-slot v vs j u h) [
                | inl r ↦ subst (λ x. holds a x ≡ 0) (sym r) (ground arith)
                | inr r ↦ clear j u lt r
              ]))
      ])
    ]

  -- The loop, from the slot `i` on.
  cut_from_le :
      (i n : ℕ) (vs : List UserVma) (a : ℕ) → holders a (cut_from s e i n vs) ≤ holders a vs
  unfolding cut_from
  cut_from_le i zero vs a = omega arith
  cut_from_le i (suc n) vs a =
      omega (arith, turn_le i vs a, cut_from_le (i + 1) n (cut_turn s e i vs) a)

  cut_from_keep :
      (i n : ℕ) (vs : List UserVma) (a : ℕ)
      → Room s e vs
      → within s e a ≡ false
      → holders a (cut_from s e i n vs) ≡ holders a vs
  unfolding cut_from
  cut_from_keep i zero vs a room out = refl
  cut_from_keep i (suc n) vs a room out =
      cut_from_keep (i + 1) n (cut_turn s e i vs) a (turn-Room i vs room) out
      ∙ turn_keep i vs a room out

  cut_from_clears :
      (i n : ℕ) (vs : List UserVma) (a : ℕ)
      → within s e a ≡ true
      → length vs ≤ i + n
      → Clear a i vs
      → holders a (cut_from s e i n vs) ≡ 0
  unfolding cut_from holders
  cut_from_clears i zero vs a inside all c =
      total-zero (holds a) vs (λ j u h. c.clear j u (omega (arith, get_lt vs j u h)) h)
  cut_from_clears i (suc n) vs a inside all c =
      cut_from_clears (i + 1) n (cut_turn s e i vs) a inside (omega (arith, length-turn i vs))
        (turn-Clear a i vs inside c)

-- The array that `user_vma_remove_range` leaves.
abbrev pub removed : Space → ℕ → ℕ → List UserVma
removed t s e = (user_vma_remove_range t s e).0.user_vmas

removed_lem :
    (t : Space) (s e : ℕ) → s < e → removed t s e ≡ cut_from s e 0 (length t.user_vmas) t.user_vmas
unfolding user_vma_remove_range user_vma_recount user_vma_refresh_mmap_hint
removed_lem t s e order = ground arith

removed_none : (t : Space) (s e : ℕ) → leb e s ≡ true → removed t s e ≡ t.user_vmas
unfolding user_vma_remove_range
removed_none t s e h = ground arith

pub removed_le : (t : Space) (s e a : ℕ) → holders a (removed t s e) ≤ holders a t.user_vmas
removed_le t s e a = elim (Bool-cases (leb e s)) [
  | inl none_in ↦ rw (removed_none t s e none_in) (omega arith)
  | inr some_in ↦
      let order : s < e = ground arith in
      rw (removed_lem t s e order) (cut_from_le s e order 0 (length t.user_vmas) t.user_vmas a)
]

pub removed-within : (t : Space) (s e a : ℕ) → within s e a ≡ true → holders a (removed t s e) ≡ 0
removed-within t s e a inside =
    let order : s < e = ground arith in
    rw (removed_lem t s e order) (
      cut_from_clears s e order 0 (length t.user_vmas) t.user_vmas a inside (omega arith)
        (record { clear = λ j u lt h. absurd (omega arith) }))

pub removed_outside :
    (t : Space) (s e a : ℕ)
    → Room s e t.user_vmas
    → within s e a ≡ false
    → holders a (removed t s e) ≡ holders a t.user_vmas
removed_outside t s e a room out = elim (Bool-cases (leb e s)) [
  | inl none_in ↦ ap (holders a) (removed_none t s e none_in)
  | inr some_in ↦
      let order : s < e = ground arith in
      rw (removed_lem t s e order)
        (cut_from_keep s e order 0 (length t.user_vmas) t.user_vmas a room out)
]

-- Mappings that are apart need one free slot at most.
pub Apart-Room :
    (vs : List UserVma) (s e slot : ℕ)
    → s < e
    → Apart vs
    → user_vma_find_free_slot vs ≡ some slot
    → Room s e vs
unfolding holders
Apart-Room vs s e slot order apart h = record {
  enough = omega (
    arith,
    some_slot vs slot h,
    apart.once s,
    total_mono (around s e) (holds s) (λ v. ground arith) vs,
  );
}
