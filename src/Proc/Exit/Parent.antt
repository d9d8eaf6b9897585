-- ===== src/Proc/Exit/Parent.antt =====
-- src/sys/process.c: the parent of a task that ends, and its handler of SIGCHLD, do not change when
-- the children of the task are given to the first process.
use edge_os.Prelude.{
  eq_test, ne_test, ℕ, true, false, ◌≡◌, ◌≢◌, refl, sym, ap, ◌∙◌, List, [], ◌∷◌, ◌==◌, ◌||◌,
  if◌then◌else◌, arith, ℕ_discrete, Bool-cases, inl, inr,
}
use edge_os.Prelude.Int.{ℤ}
use edge_os.Dll.{has}
use edge_os.Task.{Kernel, Ptr}
use edge_os.Proc.Tree.Links.{parent_of}
use edge_os.Proc.Tree.Kids.{Kids}
use edge_os.Proc.Tree.Adopt.{rev_onto, handed}
use edge_os.Proc.Exit.{set_exit_code}

has-rev_onto : (a : ℕ) (xs ys : List ℕ) → has a (rev_onto xs ys) ≡ (has a xs || has a ys)
has-rev_onto a [] ys = refl
has-rev_onto a (x ∷ xs) ys = ground (arith, has-rev_onto a xs (x ∷ ys))

module _ (k k1 : Kernel) (ks : ℕ → List ℕ) (t init : ℕ) (t_ne : t ≢ 0) (init_ne : init ≢ 0)
    (other : parent_of k t ≢ t) (tree : Kids k ks) (tree1 : Kids k1 (handed ks t init (ks t))) where
  not_own : has t (ks t) ≡ false
  not_own = elim (Bool-cases (has t (ks t))) [
    | inl h ↦ absurd (other (tree.parent_is t t t_ne h))
    | inr h ↦ h
  ]

  -- `t` itself is in the same list as before.
  has-handed :
      (p : ℕ) → has t (handed ks t init (ks t) p) ≡ (if p == t then false else has t (ks p))
  has-handed p = elim (ℕ_discrete p t) [
    | yes q ↦ ap (has t) (eq_test p t [] _ q) ∙ sym (eq_test p t false (has t (ks p)) q)
    | no q ↦
        ap (has t) (ne_test p t [] _ q)
        ∙ (elim (ℕ_discrete p init) [
          | yes r ↦
              ap (has t) (eq_test p init _ (ks p) r)
              ∙ (has-rev_onto t (ks t) (ks init)
                  ∙ (ap (λ b. b || has t (ks init)) not_own ∙ ap (λ z. has t (ks z)) (sym r)))
          | no r ↦ ap (has t) (ne_test p init _ (ks p) r)
        ]
            ∙ sym (ne_test p t false (has t (ks p)) q))
  ]

  pub parent_stays : parent_of k1 t ≡ parent_of k t
  parent_stays = elim (ℕ_discrete (parent_of k t) 0) [
    | no some_parent ↦ tree1.parent_is (parent_of k t) t some_parent (
        has-handed (parent_of k t)
        ∙ (ne_test (parent_of k t) t false _ other ∙ tree.listed t t_ne some_parent))
    | yes orphan ↦ elim (ℕ_discrete (parent_of k1 t) 0) [
      | yes orphan1 ↦ orphan1 ∙ sym orphan
      | no some1 ↦ absurd (
          let p = parent_of k1 t in
          let old : (if p == t then false else has t (ks p)) ≡ true =
            sym (has-handed p) ∙ tree1.listed t t_ne some1 in
          let h : has t (ks p) ≡ true = ground (arith, old) in
          some1 (sym (tree.parent_is p t some1 h) ∙ orphan))
    ]
  ]

pub sig-set_exit_code :
    (k : Kernel) (t : Ptr) (code : ℤ) (a : ℕ)
    → ((set_exit_code k t code).tasks a).sig ≡ (k.tasks a).sig
unfolding set_exit_code
sig-set_exit_code k t code a = ground arith

pub parent-set_exit_code :
    (k : Kernel) (t : Ptr) (code : ℤ) (a : ℕ)
    → ((set_exit_code k t code).tasks a).parent ≡ (k.tasks a).parent
unfolding set_exit_code
parent-set_exit_code k t code a = ground arith
