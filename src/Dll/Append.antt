-- ===== src/Dll/Append.antt =====
-- The two ways in: at the tail, as `rq_push_tail_locked` does, and at the head, as
-- `task_child_link` does.
use edge_os.Prelude.{
  ℕ, ◌≡◌, refl, sym, subst, ◌∙◌, ◌≢◌, true, false, List, [], ◌∷◌, ◌++◌, arith, ◌==◌, if◌then◌else◌,
}
use edge_os.Dll.Mem.{
  has, Distinct, head_or, last_or, has-here, ne_of_has, not-has-rest, last_or-has, snoc-Distinct,
}
use edge_os.Dll.Chains.{Chain, IsDll, Chain-frame, cell-ne-zero}

module _ (pv nx : ℕ → ℕ) (t : ℕ) where
  -- `l` is the last cell, which the write of `nx` may touch
  abbrev pub pv_snoc : ℕ → ℕ → ℕ
  pv_snoc l a = if a == t then l else pv a

  abbrev pub nx_snoc : ℕ → ℕ → ℕ
  nx_snoc l a = if a == t then 0 else if a == l then t else nx a

  pub pv_snoc-other : (l a : ℕ) → a ≢ t → pv_snoc l a ≡ pv a
  pv_snoc-other l a ne = ground arith

  pub nx_snoc-other : (l a : ℕ) → a ≢ t → a ≢ l → nx_snoc l a ≡ nx a
  nx_snoc-other l a ne ne' = ground arith

  nx_snoc-last : (l a : ℕ) → a ≢ t → a ≡ l → nx_snoc l a ≡ t
  nx_snoc-last l a ne e = ground arith

  Chain-snoc :
      (prev l : ℕ) (xs : List ℕ)
      → t ≢ 0
      → Chain pv nx prev xs
      → l ≡ last_or prev xs
      → has t xs ≡ false
      → Distinct xs
      → Chain (pv_snoc l) (nx_snoc l) prev (xs ++ (t ∷ []))
  Chain-snoc prev l [] t_ne c e out d = (t_ne, ground arith, ground arith, tt)
  Chain-snoc prev l (x ∷ []) t_ne c e out d =
      let x_ne : x ≢ t = ne_of_has (x ∷ []) (has-here x x [] refl) out in
      (
        c.0,
        rw (pv_snoc-other l x x_ne) c.1,
        nx_snoc-last l x x_ne (sym e),
        Chain-snoc x l [] t_ne tt e refl tt,
      )
  Chain-snoc prev l (x ∷ y ∷ ys) t_ne c e out d =
      let x_ne : x ≢ t = ne_of_has (x ∷ y ∷ ys) (has-here x x (y ∷ ys) refl) out in
      let out' : has t (y ∷ ys) ≡ false = ground arith in
      let l_has : has l (y ∷ ys) ≡ true =
        subst (λ z. has z (y ∷ ys) ≡ true) (sym e) (last_or-has y ys) in
      let x_ne_l : x ≢ l = λ q. ne_of_has (y ∷ ys) l_has d.0 (sym q) in
      (
        c.0,
        rw (pv_snoc-other l x x_ne) c.1,
        rw (nx_snoc-other l x x_ne x_ne_l) c.2,
        Chain-snoc x l (y ∷ ys) t_ne c.3 e out' d.1,
      )

  -- What the code's writes leave, whatever they do to the cell 0.
  pub snoc-IsDll :
      (pv' nx' : ℕ → ℕ) (head tail : ℕ) (xs : List ℕ)
      → t ≢ 0
      → IsDll pv nx head xs
      → tail ≡ last_or 0 xs
      → has t xs ≡ false
      → ((a : ℕ) → a ≢ 0 → pv' a ≡ pv_snoc tail a)
      → ((a : ℕ) → a ≢ 0 → nx' a ≡ nx_snoc tail a)
      → IsDll pv' nx' (head_or (xs ++ (t ∷ [])) 0) (xs ++ (t ∷ []))
  snoc-IsDll pv' nx' head tail xs t_ne l e out p n =
      let grown = Chain-snoc 0 tail xs t_ne l.chain e out l.distinct in
      record {
        chain =
            Chain-frame _ _ pv' nx' 0 (xs ++ (t ∷ [])) grown
              λ a h. let ne = cell-ne-zero _ _ 0 a (xs ++ (t ∷ [])) grown h in (p a ne, n a ne);
        head_eq = refl;
        distinct = snoc-Distinct t xs l.distinct out;
      }

  -- The new first cell; the old one is told of it.
  abbrev pub pv_cons : ℕ → ℕ → ℕ
  pv_cons head a = if a == t then 0 else if a == head then t else pv a

  abbrev pub nx_cons : ℕ → ℕ → ℕ
  nx_cons head a = if a == t then head else nx a

  pv_cons-other : (head a : ℕ) → a ≢ t → a ≢ head → pv_cons head a ≡ pv a
  pv_cons-other head a p q = ground arith

  nx_cons-other : (head a : ℕ) → a ≢ t → nx_cons head a ≡ nx a
  nx_cons-other head a p = ground arith

  pv_cons-head : (head a : ℕ) → a ≢ t → a ≡ head → pv_cons head a ≡ t
  pv_cons-head head a p q = ground arith

  pv_cons_self : (head : ℕ) → pv_cons head t ≡ 0
  pv_cons_self head = ground arith

  nx_cons_self : (head : ℕ) → nx_cons head t ≡ head
  nx_cons_self head = ground arith

  cons-IsDll-go :
      (pv' nx' : ℕ → ℕ) (head : ℕ) (xs : List ℕ)
      → t ≢ 0
      → Chain pv nx 0 xs
      → head ≡ head_or xs 0
      → Distinct xs
      → has t xs ≡ false
      → ((a : ℕ) → a ≢ 0 → pv' a ≡ pv_cons head a)
      → ((a : ℕ) → a ≢ 0 → nx' a ≡ nx_cons head a)
      → Chain pv' nx' 0 (t ∷ xs)
  cons-IsDll-go pv' nx' head [] t_ne c e d out p n =
      (t_ne, ground (arith, p t), ground (arith, n t), tt)
  cons-IsDll-go pv' nx' head (x ∷ xs) t_ne c e d out p n =
      let x_ne : x ≢ t = ne_of_has (x ∷ xs) (has-here x x xs refl) out in
      (
        t_ne,
        p t t_ne ∙ pv_cons_self head,
        (n t t_ne ∙ nx_cons_self head) ∙ e,
        (
          c.0,
          p x c.0 ∙ pv_cons-head head x x_ne (sym e),
          (n x c.0 ∙ nx_cons-other head x x_ne) ∙ c.2,
          Chain-frame pv nx pv' nx' x xs c.3 λ a h.
              let ne = cell-ne-zero pv nx x a xs c.3 h in
              let ne_x : a ≢ x = ne_of_has xs h d.0 in
              let ne_t : a ≢ t = ne_of_has xs h (not-has-rest t x xs out) in
              (
                p a ne ∙ pv_cons-other head a ne_t (λ q. ne_x (q ∙ e)),
                n a ne ∙ nx_cons-other head a ne_t,
              ),
        ),
      )

  pub cons-IsDll :
      (pv' nx' : ℕ → ℕ) (head : ℕ) (xs : List ℕ)
      → t ≢ 0
      → IsDll pv nx head xs
      → has t xs ≡ false
      → ((a : ℕ) → a ≢ 0 → pv' a ≡ pv_cons head a)
      → ((a : ℕ) → a ≢ 0 → nx' a ≡ nx_cons head a)
      → IsDll pv' nx' t (t ∷ xs)
  cons-IsDll pv' nx' head xs t_ne l out p n = record {
    chain = cons-IsDll-go pv' nx' head xs t_ne l.chain l.head_eq l.distinct out p n;
    head_eq = refl;
    distinct = (out, l.distinct);
  }
