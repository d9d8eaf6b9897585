-- ===== src/Sys/Vma/Gap.antt =====
-- src/sys/syscall.c: the search for room that `mmap` makes from the top of the arena down.
use edge_os.Prelude.{
  ℕ, zero, suc, Bool, true, false, ◌+◌, ◌-◌, ◌%◌, ◌≤◌, ◌<◌, ◌≡◌, refl, sym, ◌∙◌, ◌⊎◌, inl, inr,
  List, [], ◌∷◌, if◌then◌else◌, ltb, leb, ◌||◌, arith, Bool-cases, length, ◌==◌,
}
use edge_os.Task.{UserVma}
use edge_os.Sys.User.{wrap64, page_size}
use edge_os.Sys.Vma.{is_free, scan_overlap, gap_base, topdown_gap, user_vma_find_topdown_gap}
use edge_os.Sys.Vma.Ranges.{total}

-- No mapping of the array meets the range of `need` bytes from `base` on.
abbrev pub Unused : ℕ → ℕ → List UserVma → Type 0
Unused base end [] = Unit
Unused base end (v ∷ vs) =
    ((v.end ≤ v.start) ⊎ ((end ≤ v.start) ⊎ (v.end ≤ base))) × Unused base end vs

abbrev skips : ℕ → ℕ → ℕ → ℕ → UserVma → Bool
skips floor top base end v =
    is_free v || ((leb v.end floor || leb top v.start) || (leb end v.start || leb v.end base))

-- how many mappings start below a limit, and whether one starts there
below : ℕ → List UserVma → ℕ
below n vs = total (λ v. if ltb v.start n then 1 else 0) vs

abbrev Starts : ℕ → List UserVma → Type 0
Starts n [] = ⊥
Starts n (v ∷ vs) = (v.start ≡ n) ⊎ Starts n vs

below-length : (n : ℕ) (vs : List UserVma) → below n vs ≤ length vs
unfolding below total
below-length n [] = omega arith
below-length n (v ∷ vs) = ground (arith, below-length n vs)

below_mono : (m n : ℕ) (vs : List UserVma) → m ≤ n → below m vs ≤ below n vs
unfolding below total
below_mono m n [] h = omega arith
below_mono m n (v ∷ vs) h = ground (arith, below_mono m n vs h)

below_falls : (m n : ℕ) (vs : List UserVma) → m < n → Starts m vs → below m vs < below n vs
unfolding below total
below_falls m n [] h s = absurd s
below_falls m n (v ∷ vs) h (inl e) = ground (arith, below_mono m n vs (omega arith))
below_falls m n (v ∷ vs) h (inr s) = ground (arith, below_falls m n vs h s)

-- What the inner loop finds, from an overlap and a cursor before on: nothing meets the range, or
-- the lowest start of what does.
record Scanned (base end : ℕ) (before : Bool) (next : ℕ) (vs : List UserVma) (r : Bool × ℕ)
    : Type 0 where
  sticky : before ≡ true → r.0 ≡ true
  clean : r.0 ≡ false → Unused base end vs
  under : r.1 ≤ next
  falls : r.0 ≡ true → (before ≡ true) ⊎ (r.1 < end)
  origin : (r.1 ≡ next) ⊎ Starts r.1 vs
  -- no unused range that starts at or below `base` ends above the new cursor
  blocked : (b e : ℕ) → b ≤ base → e ≤ next → Unused b e vs → e ≤ r.1

abbrev lower_of : UserVma → ℕ → ℕ
lower_of v next = if ltb v.start next then v.start else next

module _ (floor top base end : ℕ) (lo : floor ≤ base) (hi : end ≤ top) where
  -- A mapping that is passed over does not meet the range.
  passed_apart :
      (v : UserVma)
      → skips floor top base end v ≡ true
      → (v.end ≤ v.start) ⊎ ((end ≤ v.start) ⊎ (v.end ≤ base))
  passed_apart v s = elim (Bool-cases (is_free v)) [
    | inl free ↦ inl (ground arith)
    | inr mapped ↦ elim (Bool-cases (leb end v.start)) [
      | inl q ↦ inr (inl (ground arith))
      | inr q ↦ inr (inr (ground arith))
    ]
  ]

  passed :
      (o : Bool) (next : ℕ) (v : UserVma) (vs : List UserVma) (r : Bool × ℕ)
      → skips floor top base end v ≡ true
      → Scanned base end o next vs r
      → Scanned base end o next (v ∷ vs) r
  passed o next v vs r s t = record {
    sticky = t.sticky;
    clean = λ h. (passed_apart v s, t.clean h);
    under = t.under;
    falls = t.falls;
    origin = elim t.origin [ inl e ↦ inl e | inr q ↦ inr (inr q) ];
    blocked = λ b e p q u. t.blocked b e p q u.1;
  }

  module _ (o : Bool) (next : ℕ) (v : UserVma) (vs : List UserVma) (r : Bool × ℕ)
      (s : skips floor top base end v ≡ false)
      (t : Scanned base end true (lower_of v next) vs r) where
    met_origin : (r.1 ≡ next) ⊎ Starts r.1 (v ∷ vs)
    met_origin = elim t.origin [
      | inl e ↦ elim (Bool-cases (ltb v.start next)) [
        | inl l ↦ inr (inl (ground arith))
        | inr l ↦ inl (ground arith)
      ]
      | inr q ↦ inr (inr q)
    ]

    met_blocked : (b e : ℕ) → b ≤ base → e ≤ next → Unused b e (v ∷ vs) → e ≤ r.1
    met_blocked b e p q u = elim u.0 [
      | inl free ↦ absurd (ground arith)
      | inr (inl x) ↦ t.blocked b e p (ground arith) u.1
      | inr (inr x) ↦ absurd (ground arith)
    ]

    met : Scanned base end o next (v ∷ vs) r
    met = record {
      sticky = λ h. t.sticky refl;
      clean = λ h. absurd (let q : true ≡ false = sym (t.sticky refl) ∙ h in cc);
      under = let u = t.under in ground arith;
      falls = λ h. let u = t.under in inr (ground arith);
      origin = met_origin;
      blocked = met_blocked;
    }

  scan-Scanned :
      (o : Bool) (next : ℕ) (vs : List UserVma)
      → Scanned base end o next vs (scan_overlap floor top base end o next vs)
  unfolding scan_overlap
  scan-Scanned o next [] = record {
    sticky = λ h. h;
    clean = λ h. tt;
    under = omega arith;
    falls = λ h. inl h;
    origin = inl refl;
    blocked = λ b e p q u. q;
  }
  scan-Scanned o next (v ∷ vs) = elim (Bool-cases (skips floor top base end v)) [
    | inl s ↦ rw s (passed o next v vs _ s (scan-Scanned o next vs))
    | inr s ↦ rw s (met o next v vs _ s (scan-Scanned true (lower_of v next) vs))
  ]

-- A range that the search may give: in the arena, at a page, and used by no mapping.
pub record Fits (floor top need : ℕ) (vs : List UserVma) (b : ℕ) : Type 0 where
  pub above : floor ≤ b
  pub under : b + need ≤ top
  pub aligned : b % page_size ≡ 0
  pub unused : Unused b (b + need) vs

-- The highest such range, or 0 if there is none.
unfoldable pub Highest : ℕ → ℕ → ℕ → List UserVma → ℕ → Type 0
Highest floor top need vs g =
    ((g ≡ 0) × ((b : ℕ) → ¬ Fits floor top need vs b))
    ⊎ (Fits floor top need vs g × ((b : ℕ) → Fits floor top need vs b → b ≤ g))

module _ (floor top need : ℕ) (vs : List UserVma) (some_need : 0 < need)
    (at_page : floor % page_size ≡ 0) (no_wrap : top < 18446744073709551616) where
  module _ (cursor : ℕ) (c : cursor ≤ top) (large : floor + need ≤ cursor) where
    base_fits :
        (floor ≤ gap_base floor cursor need)
        × (gap_base floor cursor need + need ≤ cursor)
        × (gap_base floor cursor need % page_size ≡ 0)
    base_fits = (ground arith, ground arith, ground arith)

    base_highest : (b : ℕ) → b + need ≤ cursor → b % page_size ≡ 0 → b ≤ gap_base floor cursor need
    base_highest b u p = ground arith

    no_wrap_at : wrap64 (gap_base floor cursor need + need) ≡ gap_base floor cursor need + need
    no_wrap_at = omega (arith, base_fits)

    scanned :
        Scanned (gap_base floor cursor need) (gap_base floor cursor need + need) false cursor vs (
          scan_overlap floor top
            (gap_base floor cursor need)
            (gap_base floor cursor need + need)
            false
            cursor
            vs)
    scanned = scan-Scanned floor top _ _ base_fits.0 (omega (arith, base_fits)) false cursor vs

  topdown-Highest :
      (iter cursor : ℕ)
      → cursor ≤ top
      → below cursor vs < iter
      → ((b : ℕ) → Fits floor top need vs b → b + need ≤ cursor)
      → Highest floor top need vs (topdown_gap iter vs floor top need cursor)
  unfolding topdown_gap Highest
  topdown-Highest zero cursor c m h = absurd (omega arith)
  topdown-Highest (suc iter) cursor c m h =
      elim (Bool-cases (leb cursor floor || ltb (cursor - floor) need)) [
        | inl small ↦ rw small (inl (refl, λ b f. let a = f.above in let u = h b f in ground arith))
        | inr large ↦
            let room : floor + need ≤ cursor = ground arith in
            let base = gap_base floor cursor need in
            let fits = base_fits cursor c room in
            let found = scan_overlap floor top base (base + need) false cursor vs in
            let s = scanned cursor c room in
            let within : (ltb top (base + need) || ltb (base + need) base) ≡ false =
              ground (arith, fits.1) in
            rw (large, no_wrap_at cursor c room, within)
              (elim (Bool-cases found.0) [
                | inl hit ↦
                    let less : found.1 < cursor = elim (s.falls hit) [
                      | inl q ↦ absurd (cc)
                      | inr q ↦ omega (arith, fits.1)
                    ] in
                    let go : leb cursor found.1 ≡ false = ground (arith, less) in
                    let fewer : below found.1 vs < below cursor vs = elim s.origin [
                      | inl q ↦ absurd (omega (arith, less))
                      | inr q ↦ below_falls found.1 cursor vs less q
                    ] in
                    rw (hit, go)
                      (topdown-Highest iter found.1 (omega (arith, less)) (omega (arith, fewer))
                        (λ b f.
                          s.blocked b (b + need) (base_highest cursor c room b (h b f) f.aligned)
                            (h b f) f.unused))
                | inr miss ↦ rw miss (
                    inr (
                      record {
                        above = fits.0;
                        under = omega (arith, fits.1);
                        aligned = fits.2;
                        unused = s.clean miss;
                      },
                      λ b f. base_highest cursor c room b (h b f) f.aligned,
                    ))
              ])
      ]

-- For a size above 0, and with at most 256 mappings, a floor at a page and a top below 2^64, the
-- search for room gives the highest start at a page of a range of that size between the floor and
-- the top that no mapping overlaps, and 0 only where there is no such range: its 260 turns are
-- enough.
pub find_topdown_gap-Highest :
    (vs : List UserVma) (floor top need : ℕ)
    → length vs ≤ 256
    → 0 < need
    → floor % page_size ≡ 0
    → top < 18446744073709551616
    → Highest floor top need vs (user_vma_find_topdown_gap vs floor top need)
unfolding user_vma_find_topdown_gap Highest
find_topdown_gap-Highest vs floor top need len n p w =
    let some_need : (need == 0) ≡ false = ground arith in
    elim (Bool-cases (leb top floor || ltb (top - floor) need)) [
      | inl small ↦
          rw (some_need, small)
            (inl (refl, λ b f. let a = f.above in let u = f.under in ground arith))
      | inr large ↦
          rw (some_need, large)
            (topdown-Highest floor top need vs n p w 260 top (omega arith)
              (omega (arith, below-length top vs)) (λ b f. f.under))
    ]
