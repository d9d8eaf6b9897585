-- ===== src/Str/Mem/Move.antt =====
-- src/string.c: what a move of a block leaves, whether source and destination overlap or not.
use edge_os.Prelude.{
  ℕ, zero, suc, ◌+◌, ◌-◌, ◌≤◌, ◌<◌, ◌≡◌, refl, ◌∙◌, sym, ap, ◌≢◌, ◌⊎◌, inl, inr, arith, ◌==◌,
  if◌then◌else◌, ltb, leb, not, ◌&&◌, true, false, Bool, Bool-cases, ℕ_discrete, ◌||◌,
}
use edge_os.Prelude.Int.{ℤ, pos}
use edge_os.Prelude.Maps.{upd}
use edge_os.Str.Mem.{Memory, memset, memcpy, move_up, move_down, memmove, memcmp}

-- whether `a` is one of the `n` addresses from `p` on
abbrev pub inside : ℕ → ℕ → ℕ → Bool
inside p n a = leb p a && ltb a (p + n)

-- What a block move means: the block at `d` becomes what the block at `s` was.
abbrev pub moved : Memory → ℕ → ℕ → ℕ → ℕ → ℕ
moved m d s n a = if inside d n a then m (s + (a - d)) else m a

memset-eq : (m : Memory) (d c n a : ℕ) → memset m d c n a ≡ (if inside d n a then c else m a)
unfolding memset
memset-eq m d c zero a = ground arith
memset-eq m d c (suc n) a = memset-eq (upd m d c) (d + 1) c n a ∙ ground arith

upd_other : (m : Memory) (p v a : ℕ) → a ≢ p → upd m p v a ≡ m a
upd_other m p v a h = ground arith

upd_same : (m : Memory) (p v a : ℕ) → a ≡ p → upd m p v a ≡ v
upd_same m p v a h = ground arith

yes_test : (b : Bool) (x y : ℕ) → b ≡ true → (if b then x else y) ≡ x
yes_test b x y h = ground arith

no_test : (b : Bool) (x y : ℕ) → b ≡ false → (if b then x else y) ≡ y
no_test b x y h = ground arith

at_if :
    (b : Bool) (f g : Memory) (a v : ℕ)
    → (b ≡ true → f a ≡ v)
    → (b ≡ false → g a ≡ v)
    → (if b then f else g) a ≡ v
at_if true f g a v p q = p refl
at_if false f g a v p q = q refl

-- going up is right where the destination is below the source
move_up-eq :
    (m : Memory) (d s i n a : ℕ)
    → d < s
    → move_up m d s i n a ≡ (if inside (d + i) n a then m (s + (a - d)) else m a)
unfolding move_up
move_up-eq m d s i zero a below = ground arith
move_up-eq m d s i (suc n) a below =
    move_up-eq (upd m (d + i) (m (s + i))) d s (i + 1) n a below ∙ elim (ℕ_discrete a (d + i)) [
      | yes e ↦
          no_test (inside (d + (i + 1)) n a) _ _ (ground arith)
          ∙ upd_same m (d + i) (m (s + i)) a e
          ∙ ap m (omega arith)
          ∙ sym (yes_test (inside (d + i) (suc n) a) (m (s + (a - d))) (m a) (ground arith))
      | no ne ↦ elim (Bool-cases (inside (d + (i + 1)) n a)) [
        | inl q ↦
            yes_test (inside (d + (i + 1)) n a) _ _ q
            ∙ upd_other m (d + i) (m (s + i)) (s + (a - d)) (ground arith)
            ∙ sym (yes_test (inside (d + i) (suc n) a) _ _ (ground arith))
        | inr q ↦
            no_test (inside (d + (i + 1)) n a) _ _ q
            ∙ upd_other m (d + i) (m (s + i)) a ne
            ∙ sym (no_test (inside (d + i) (suc n) a) _ _ (ground arith))
      ]
    ]

move_down-eq : (m : Memory) (d s n a : ℕ) → s < d → move_down m d s n a ≡ moved m d s n a
unfolding move_down
move_down-eq m d s zero a above = ground arith
move_down-eq m d s (suc n) a above =
    move_down-eq (upd m (d + n) (m (s + n))) d s n a above ∙ elim (ℕ_discrete a (d + n)) [
      | yes e ↦
          no_test (inside d n a) _ _ (ground arith)
          ∙ upd_same m (d + n) (m (s + n)) a e
          ∙ ap m (omega arith)
          ∙ sym (yes_test (inside d (suc n) a) (m (s + (a - d))) (m a) (ground arith))
      | no ne ↦ elim (Bool-cases (inside d n a)) [
        | inl q ↦
            yes_test (inside d n a) _ _ q
            ∙ upd_other m (d + n) (m (s + n)) (s + (a - d)) (ground arith)
            ∙ sym (yes_test (inside d (suc n) a) _ _ (ground arith))
        | inr q ↦
            no_test (inside d n a) _ _ q
            ∙ upd_other m (d + n) (m (s + n)) a ne
            ∙ sym (no_test (inside d (suc n) a) _ _ (ground arith))
      ]
    ]

-- `memmove` moves a block however it overlaps its destination: the `n` bytes at `d` become what
-- those at `s` were before the call, and no other byte changes.
pub memmove-moved : (m : Memory) (d s n a : ℕ) → memmove m d s n a ≡ moved m d s n a
unfolding memmove
memmove-moved m d s n a =
    at_if ((d == s) || (n == 0)) m _ a (moved m d s n a)
      (λ stays. elim (ℕ_discrete n 0) [
        | yes z ↦ sym (no_test (inside d n a) (m (s + (a - d))) (m a) (ground arith))
        | no nz ↦ in_place (ground arith)
      ])
      (λ moves.
        at_if (ltb d s) _ _ a (moved m d s n a)
          (λ below.
            move_up-eq m d s 0 n a (ground arith)
            ∙ ap (λ z. if inside z n a then m (s + (a - d)) else m a) (omega arith))
          (λ above. move_down-eq m d s n a (ground arith)))
  where
    in_place : d ≡ s → m a ≡ moved m d s n a
    in_place e = elim (Bool-cases (inside d n a)) [
      | inl q ↦ ap m (ground arith) ∙ sym (yes_test (inside d n a) (m (s + (a - d))) (m a) q)
      | inr q ↦ sym (no_test (inside d n a) (m (s + (a - d))) (m a) q)
    ]

shifted : (d s n : ℕ) → (d < s) ⊎ (s + suc n ≤ d) → (d + 1 < s + 1) ⊎ (s + 1 + n ≤ d + 1)
shifted d s n (inl h) = inl (omega arith)
shifted d s n (inr h) = inr (omega arith)

memcpy-go : (m : Memory) (d s n a : ℕ) → (d < s) ⊎ (s + n ≤ d) → memcpy m d s n a ≡ moved m d s n a
unfolding memcpy
memcpy-go m d s zero a h = ground arith
memcpy-go m d s (suc n) a h =
    memcpy-go (upd m d (m s)) (d + 1) (s + 1) n a (shifted d s n h) ∙ elim (ℕ_discrete a d) [
      | yes e ↦
          no_test (inside (d + 1) n a) _ _ (ground arith)
          ∙ upd_same m d (m s) a e
          ∙ ap m (omega arith)
          ∙ sym (yes_test (inside d (suc n) a) (m (s + (a - d))) (m a) (ground arith))
      | no ne ↦ elim (Bool-cases (inside (d + 1) n a)) [
        | inl q ↦
            yes_test (inside (d + 1) n a) _ _ q
            ∙ upd_other m d (m s) (s + 1 + (a - (d + 1))) (ground arith)
            ∙ ap m (ground arith)
            ∙ sym (yes_test (inside d (suc n) a) _ _ (ground arith))
        | inr q ↦
            no_test (inside (d + 1) n a) _ _ q
            ∙ upd_other m d (m s) a ne
            ∙ sym (no_test (inside d (suc n) a) _ _ (ground arith))
      ]
    ]

memcpy-apart :
    (m : Memory) (d s n a : ℕ) → (d + n ≤ s) ⊎ (s + n ≤ d) → memcpy m d s n a ≡ moved m d s n a
unfolding memcpy
memcpy-apart m d s zero a h = ground arith
memcpy-apart m d s (suc n) a (inl h) = memcpy-go m d s (suc n) a (inl (omega arith))
memcpy-apart m d s (suc n) a (inr h) = memcpy-go m d s (suc n) a (inr h)

memcmp-equal :
    (m : Memory) (a b n : ℕ) → ((i : ℕ) → i < n → m (a + i) ≡ m (b + i)) → memcmp m a b n ≡ pos 0
unfolding memcmp
memcmp-equal m a b zero h = refl
memcmp-equal m a b (suc n) h =
    let first : m a ≡ m b = ap m (omega arith) ∙ h 0 (omega arith) ∙ ap m (omega arith) in
    let rest =
      memcmp-equal m (a + 1) (b + 1) n
        (λ i small. ap m (omega arith) ∙ h (suc i) (omega arith) ∙ ap m (omega arith)) in
    same_test (m a) (m b) _ _ first ∙ rest
  where
    same_test : (x y : ℕ) (u v : ℤ) → x ≡ y → (if not (x == y) then u else v) ≡ v
    same_test x y u v e = ground arith

-- the copied bytes, and those that they come from
copied :
    (m : Memory) (d s n i : ℕ)
    → (d + n ≤ s) ⊎ (s + n ≤ d)
    → i < n
    → moved m d s n (d + i) ≡ moved m d s n (s + i)
copied m d s n i apart small =
    yes_test (inside d n (d + i)) _ _ (ground arith)
    ∙ ap m (omega arith)
    ∙ sym (no_test (inside d n (s + i)) _ _ (ground arith))

-- `memcpy` of two blocks that do not overlap moves the source to the destination, and a
-- comparison of the two by `memcmp` then gives 0.
pub memcpy-moved :
    (m : Memory) (d s n : ℕ)
    → (d + n ≤ s) ⊎ (s + n ≤ d)
    → ((a : ℕ) → memcpy m d s n a ≡ moved m d s n a) × (memcmp (memcpy m d s n) d s n ≡ pos 0)
memcpy-moved m d s n apart = (
  all,
  memcmp-equal (memcpy m d s n) d s n
      λ i small. all (d + i) ∙ copied m d s n i apart small ∙ sym (all (s + i)),
)
  where
    all : (a : ℕ) → memcpy m d s n a ≡ moved m d s n a
    all a = memcpy-apart m d s n a apart
