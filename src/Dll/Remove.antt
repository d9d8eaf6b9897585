-- ===== src/Dll/Remove.antt =====
-- The way out, from any place: `rq_remove_locked`, `rq_pop_head_locked` and `task_child_unlink`.
use mathlib.Core.Bool.{false≢true}
use edge_os.Prelude.{
  ℕ, ◌≡◌, refl, sym, subst, ◌∙◌, ◌≢◌, true, false, List, [], ◌∷◌, arith, ◌==◌, if◌then◌else◌,
  ℕ_discrete,
}
use edge_os.Dll.Mem.{
  has, Distinct, head_or, erase, has-here, has-there, has-rest, ne_of_has, erase-Distinct,
  erase-same, erase-other,
}
use edge_os.Dll.Chains.{Chain, IsDll, Chain-frame, not-has_zero, next-has, prev-has, cell-ne-zero}

module _ (pv nx : ℕ → ℕ) (t : ℕ) where
  -- the neighbours are joined, and the links of the cell are cleared
  abbrev pub pv_erase : ℕ → ℕ
  pv_erase a = if a == t then 0 else if a == nx t then pv t else pv a

  abbrev pub nx_erase : ℕ → ℕ
  nx_erase a = if a == t then 0 else if a == pv t then nx t else nx a

  pub pv_erase-other : (a : ℕ) → a ≢ t → a ≢ nx t → pv_erase a ≡ pv a
  pv_erase-other a p q = ground arith

  pub nx_erase-other : (a : ℕ) → a ≢ t → a ≢ pv t → nx_erase a ≡ nx a
  nx_erase-other a p q = ground arith

  pv_erase-next : (a : ℕ) → a ≢ t → a ≡ nx t → pv_erase a ≡ pv t
  pv_erase-next a p q = ground arith

  nx_erase-prev : (a : ℕ) → a ≢ t → a ≡ pv t → nx_erase a ≡ nx t
  nx_erase-prev a p q = ground arith

  -- `t` is the first cell
  Chain-tail :
      (prev : ℕ) (ys : List ℕ)
      → Chain pv nx prev (t ∷ ys)
      → Distinct (t ∷ ys)
      → has prev (t ∷ ys) ≡ false
      → Chain pv_erase nx_erase prev ys
  Chain-tail prev [] c d out = tt
  Chain-tail prev (y ∷ ys) c d out =
      let y_ne : y ≢ t = λ e. ne_of_has (y ∷ ys) (has-here t y ys (sym e)) d.0 refl in
      let y_ne_p : y ≢ pv t =
        λ e. ne_of_has (t ∷ y ∷ ys) (has-there y t (y ∷ ys) (has-here y y ys refl)) out (e ∙ c.1) in
      let rest = c.3 in
      (
        rest.0,
        pv_erase-next y y_ne (sym c.2) ∙ c.1,
        nx_erase-other y y_ne y_ne_p ∙ rest.2,
        Chain-frame pv nx pv_erase nx_erase y ys rest.3 λ a h.
            let a_ne : a ≢ t = ne_of_has (y ∷ ys) (has-there a y ys h) d.0 in
            let a_in : has a (t ∷ y ∷ ys) ≡ true = has-there a t (y ∷ ys) (has-there a y ys h) in
            (
              pv_erase-other a a_ne (λ e. ne_of_has ys h d.1.0 (e ∙ c.2)),
              nx_erase-other a a_ne (λ e. ne_of_has (t ∷ y ∷ ys) a_in out (e ∙ c.1)),
            ),
      )

  -- `t` is a later cell: what becomes of the link out of the cell before
  nx_erase-before :
      (x y : ℕ) (ys : List ℕ)
      → x ≢ t
      → Chain pv nx x (y ∷ ys)
      → has x (y ∷ ys) ≡ false
      → has t (y ∷ ys) ≡ true
      → nx x ≡ y
      → nx_erase x ≡ head_or (erase t (y ∷ ys)) 0
  nx_erase-before x y ys x_ne c out h e = elim (ℕ_discrete y t) [
    | yes q ↦ rw (erase-same y t ys q) (
        nx_erase-prev x x_ne (sym (subst (λ z. pv z ≡ x) q c.1))
        ∙ subst (λ z. nx z ≡ head_or ys 0) q c.2)
    | no q ↦
        let behind : has (pv t) (y ∷ ys) ≡ true = elim (ℕ_discrete (pv t) y) [
          | yes r ↦ has-here (pv t) y ys r
          | no r ↦
              has-there (pv t) y ys
                (prev-has pv nx y t ys c.3 (has-rest t y ys (λ r'. q (sym r')) h) r)
        ] in
        rw (erase-other y t ys q)
          (nx_erase-other x x_ne (λ r. ne_of_has (y ∷ ys) behind out (sym r)) ∙ e)
  ]

  Chain-erase :
      (prev : ℕ) (xs : List ℕ)
      → Chain pv nx prev xs
      → Distinct xs
      → has prev xs ≡ false
      → has t xs ≡ true
      → Chain pv_erase nx_erase prev (erase t xs)
  Chain-erase prev [] c d out h = tt
  Chain-erase prev (x ∷ []) c d out h = elim (ℕ_discrete x t) [
    | yes e ↦ rw (erase-same x t [] e) tt
    | no ne ↦ absurd (false≢true (has-rest t x [] (λ e. ne (sym e)) h))
  ]
  Chain-erase prev (x ∷ y ∷ ys) c d out h = elim (ℕ_discrete x t) [
    | yes e ↦
        subst
          (λ z.
            Chain pv nx prev (z ∷ y ∷ ys)
            → Distinct (z ∷ y ∷ ys)
            → has prev (z ∷ y ∷ ys) ≡ false
            → Chain pv_erase nx_erase prev (erase t (z ∷ y ∷ ys)))
          (sym e)
          (λ c' d' out'. rw (erase-same t t (y ∷ ys) refl) (Chain-tail prev (y ∷ ys) c' d' out')) c
          d out
    | no ne ↦
        let h' : has t (y ∷ ys) ≡ true = has-rest t x (y ∷ ys) (λ e. ne (sym e)) h in
        let x_ne : x ≢ nx t = λ e.
          ne_of_has (y ∷ ys) (next-has pv nx x t (y ∷ ys) c.3 h' (λ z. c.0 (e ∙ z))) d.0 (sym e) in
        rw (erase-other x t (y ∷ ys) ne) (
          c.0,
          pv_erase-other x ne x_ne ∙ c.1,
          nx_erase-before x y ys ne c.3 d.0 h' c.2,
          Chain-erase x (y ∷ ys) c.3 d.1 d.0 h',
        )
  ]

  -- What the code's writes leave, whatever they do to the cell 0.
  pub erase-IsDll :
      (pv' nx' : ℕ → ℕ) (head : ℕ) (xs : List ℕ)
      → IsDll pv nx head xs
      → has t xs ≡ true
      → ((a : ℕ) → a ≢ 0 → pv' a ≡ pv_erase a)
      → ((a : ℕ) → a ≢ 0 → nx' a ≡ nx_erase a)
      → IsDll pv' nx' (head_or (erase t xs) 0) (erase t xs)
  erase-IsDll pv' nx' head xs l h p n =
      let out = not-has_zero pv nx 0 xs l.chain in
      let left = Chain-erase 0 xs l.chain l.distinct out h in
      record {
        chain = Chain-frame pv_erase nx_erase pv' nx' 0 (erase t xs) left λ a i.
            let ne = cell-ne-zero pv_erase nx_erase 0 a (erase t xs) left i in (p a ne, n a ne);
        head_eq = refl;
        distinct = erase-Distinct t xs l.distinct;
      }
