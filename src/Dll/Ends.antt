-- ===== src/Dll/Ends.antt =====
-- The two ends of a list after a removal, as the code computes them from the links of the cell
-- that goes, and the cells of other lists.
use mathlib.Core.Bool.{false≢true}
use edge_os.Prelude.{
  ℕ, ◌≡◌, refl, sym, subst, ◌∙◌, ◌≢◌, true, false, List, [], ◌∷◌, arith, ◌==◌, if◌then◌else◌,
  ℕ_discrete,
}
use edge_os.Dll.Mem.{
  has, Distinct, head_or, last_or, erase, has-here, has-rest, ne_of_has, erase-same, erase-other,
}
use edge_os.Dll.Chains.{Chain, IsDll, next-has, prev-has, cell-ne-zero, not-has_zero}
use edge_os.Dll.Remove.{pv_erase, nx_erase, pv_erase-other, nx_erase-other}

if_yes : (a b x y : ℕ) → a ≡ b → (if a == b then x else y) ≡ x
if_yes a b x y h = ground arith

if_no : (a b x y : ℕ) → a ≢ b → (if a == b then x else y) ≡ y
if_no a b x y h = ground arith

module _ (pv nx : ℕ → ℕ) (t : ℕ) where
  -- the predecessor of a cell that is not the first
  behind-ne-zero : (x : ℕ) (xs : List ℕ) → x ≢ 0 → Chain pv nx x xs → has t xs ≡ true → pv t ≢ 0
  behind-ne-zero x xs x_ne c h = elim (ℕ_discrete (pv t) x) [
    | yes e ↦ λ z. x_ne (sym e ∙ z)
    | no ne ↦ cell-ne-zero pv nx x (pv t) xs c (prev-has pv nx x t xs c h ne)
  ]

  head-erase-go :
      (xs : List ℕ)
      → Chain pv nx 0 xs
      → has t xs ≡ true
      → (if pv t == 0 then nx t else head_or xs 0) ≡ head_or (erase t xs) 0
  head-erase-go [] c h = absurd (false≢true h)
  head-erase-go (x ∷ xs) c h = elim (ℕ_discrete x t) [
    | yes e ↦ rw (erase-same x t xs e) (
        if_yes (pv t) 0 (nx t) x (subst (λ z. pv z ≡ 0) e c.1)
        ∙ subst (λ z. nx z ≡ head_or xs 0) e c.2)
    | no ne ↦ rw (erase-other x t xs ne) (
        if_no (pv t) 0 (nx t) x (behind-ne-zero x xs c.0 c.3 (has-rest t x xs (λ e. ne (sym e)) h)))
  ]

  tail-erase-go :
      (prev : ℕ) (xs : List ℕ)
      → Chain pv nx prev xs
      → has t xs ≡ true
      → (if nx t == 0 then pv t else last_or prev xs) ≡ last_or prev (erase t xs)
  tail-erase-go prev [] c h = absurd (false≢true h)
  tail-erase-go prev (x ∷ []) c h = elim (ℕ_discrete x t) [
    | yes e ↦
        rw (erase-same x t [] e)
          (if_yes (nx t) 0 (pv t) x (subst (λ z. nx z ≡ 0) e c.2) ∙ subst (λ z. pv z ≡ prev) e c.1)
    | no ne ↦ absurd (false≢true (has-rest t x [] (λ e. ne (sym e)) h))
  ]
  tail-erase-go prev (x ∷ y ∷ ys) c h = elim (ℕ_discrete x t) [
    | yes e ↦
        rw (erase-same x t (y ∷ ys) e) (
          if_no (nx t) 0 (pv t) (last_or y ys) (λ z. c.3.0 (sym (subst (λ w. nx w ≡ y) e c.2) ∙ z)))
    | no ne ↦
        rw (erase-other x t (y ∷ ys) ne)
          (tail-erase-go x (y ∷ ys) c.3 (has-rest t x (y ∷ ys) (λ e. ne (sym e)) h))
  ]

  module _ (head : ℕ) (xs : List ℕ) (l : IsDll pv nx head xs) (h : has t xs ≡ true) where
    pub head-erase : (if pv t == 0 then nx t else head) ≡ head_or (erase t xs) 0
    head-erase = rw (l.head_eq) (head-erase-go xs l.chain h)

    pub tail-erase :
        (tail : ℕ)
        → tail ≡ last_or 0 xs
        → (if nx t == 0 then pv t else tail) ≡ last_or 0 (erase t xs)
    tail-erase tail e = rw e (tail-erase-go 0 xs l.chain h)

    -- A cell is not its own predecessor.
    pub prev-ne_self : pv t ≢ t
    prev-ne_self e = go 0 xs (not-has_zero pv nx 0 xs l.chain) l.chain l.distinct h
      where
        go :
            (prev : ℕ) (ys : List ℕ)
            → has prev ys ≡ false
            → Chain pv nx prev ys
            → Distinct ys
            → has t ys ≡ true
            → ⊥
        go prev [] out c d i = false≢true i
        go prev (y ∷ ys) out c d i = elim (ℕ_discrete y t) [
          | yes q ↦
              ne_of_has (y ∷ ys) (has-here y y ys refl) out
                (q ∙ sym e ∙ subst (λ z. pv z ≡ prev) q c.1)
          | no q ↦ go y ys d.0 c.3 d.1 (has-rest t y ys (λ r. q (sym r)) i)
        ]

    -- The removal writes no link of a cell of another list.
    pub erase-elsewhere :
        (a : ℕ)
        → a ≢ 0
        → has a xs ≡ false
        → (pv_erase pv nx t a ≡ pv a) × (nx_erase pv nx t a ≡ nx a)
    erase-elsewhere a a_ne out =
        let a_ne_t : a ≢ t = λ e. ne_of_has xs h out (sym e) in
        let a_ne_n : a ≢ nx t =
          λ e. ne_of_has xs (next-has pv nx 0 t xs l.chain h (λ z. a_ne (e ∙ z))) out (sym e) in
        let a_ne_p : a ≢ pv t =
          λ e. ne_of_has xs (prev-has pv nx 0 t xs l.chain h (λ z. a_ne (e ∙ z))) out (sym e) in
        (pv_erase-other pv nx t a a_ne_t a_ne_n, nx_erase-other pv nx t a a_ne_t a_ne_p)
