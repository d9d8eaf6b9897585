-- ===== src/Proc/Tree/Kids.antt =====
-- src/sys/process.c: the lists of children that the links of the tasks form, and what
-- `task_child_unlink` and `task_child_link` do to them.
use mathlib.Core.Bool.{false≢true}
use edge_os.Prelude.{
  eq_test, ne_test, ℕ, true, false, ◌≡◌, refl, sym, subst, ◌∙◌, ◌≢◌, inl, inr, List, ◌∷◌, arith,
  ◌==◌, if◌then◌else◌, ℕ_discrete, Bool-cases,
}
use edge_os.Dll.{
  has, erase, IsDll, Chain-frame, erase-has, has-erase_ne, erase_absent, erase-IsDll, head-erase,
  prev-ne_self, erase-elsewhere, ne_of_has, cell-ne-zero, pv_erase, nx_erase,
}
use edge_os.Task.{Kernel}
use edge_os.Proc.Tree.{task_child_unlink}
use edge_os.Proc.Tree.Links.{
  sp, sn, parent_of, first_of, prev-task_child_unlink, next-task_child_unlink,
  parent-task_child_unlink, first-task_child_unlink,
}

-- `ks p` lists the children of the task `p`, the latest first.
pub record Kids (k : Kernel) (ks : ℕ → List ℕ) : Type 0 where
  pub lists : (p : ℕ) → p ≢ 0 → IsDll (sp k) (sn k) (first_of k p) (ks p)
  pub parent_is : (p a : ℕ) → p ≢ 0 → has a (ks p) ≡ true → parent_of k a ≡ p
  pub listed : (a : ℕ) → a ≢ 0 → parent_of k a ≢ 0 → has a (ks (parent_of k a)) ≡ true
  pub alone : (a : ℕ) → a ≢ 0 → parent_of k a ≡ 0 → (sp k a ≡ 0) × (sn k a ≡ 0)

abbrev pub without : (ℕ → List ℕ) → ℕ → ℕ → List ℕ
without ks t p = erase t (ks p)

abbrev pub with_first : (ℕ → List ℕ) → ℕ → ℕ → ℕ → List ℕ
with_first ks q t p = if p == q then t ∷ ks p else ks p

module _ (k : Kernel) (ks : ℕ → List ℕ) (t : ℕ) (t_ne : t ≢ 0) (tree : Kids k ks) where
  prev-ne : sp k t ≢ t
  prev-ne e = elim (ℕ_discrete (parent_of k t) 0) [
    | yes z ↦ t_ne (sym e ∙ (tree.alone t t_ne z).0)
    | no ne ↦
        prev-ne_self (sp k) (sn k) t (first_of k (parent_of k t)) (ks (parent_of k t))
          (tree.lists (parent_of k t) ne) (tree.listed t t_ne ne) e
  ]

  -- The links of a task with another parent stay.
  other-links :
      (a : ℕ)
      → a ≢ 0
      → a ≢ t
      → (parent_of k t ≢ 0 → parent_of k a ≢ parent_of k t)
      → (pv_erase (sp k) (sn k) t a ≡ sp k a) × (nx_erase (sp k) (sn k) t a ≡ sn k a)
  other-links a a_ne a_t differs = elim (ℕ_discrete (parent_of k t) 0) [
    | yes z ↦
        let links = tree.alone t t_ne z in
        (rw (links.1) (ground arith), rw (links.0) (ground arith))
    | no ne ↦
        erase-elsewhere (sp k) (sn k) t (first_of k (parent_of k t)) (ks (parent_of k t))
          (tree.lists (parent_of k t) ne) (tree.listed t t_ne ne) a a_ne
          (elim (Bool-cases (has a (ks (parent_of k t)))) [
            | inl q ↦ absurd (differs ne (tree.parent_is (parent_of k t) a ne q))
            | inr q ↦ q
          ])
  ]

  -- A task is among the children of its own parent alone.
  not-listed :
      (p a : ℕ)
      → p ≢ 0
      → has a (ks p) ≡ true
      → has t (ks p) ≡ false
      → parent_of k t ≢ 0
      → parent_of k a ≢ parent_of k t
  not-listed p a p_ne h out ne e = false≢true (
      sym out
      ∙ subst (λ z. has t (ks z) ≡ true) (sym e ∙ tree.parent_is p a p_ne h)
          (tree.listed t t_ne ne))

  unlinked-list :
      (p : ℕ)
      → p ≢ 0
      → IsDll
          (sp (task_child_unlink k t))
          (sn (task_child_unlink k t))
          (first_of (task_child_unlink k t) p)
          (erase t (ks p))
  unlinked-list p p_ne =
      let l = tree.lists p p_ne in
      elim (Bool-cases (has t (ks p))) [
        | inl h ↦
            let d =
              erase-IsDll (sp k) (sn k) t (sp (task_child_unlink k t)) (sn (task_child_unlink k t))
                (first_of k p) (ks p) l h (λ a ne. prev-task_child_unlink k t t_ne a ne prev-ne)
                (λ a ne. next-task_child_unlink k t t_ne a ne) in
            record {
              chain = d.chain;
              head_eq =
                  first-task_child_unlink k t t_ne p p_ne
                  ∙ rw (tree.parent_is p t p_ne h)
                      (rw (eq_test p p (sn k t) (first_of k p) refl) refl)
                  ∙ head-erase (sp k) (sn k) t (first_of k p) (ks p) l h;
              distinct = d.distinct;
            }
        | inr out ↦ rw (erase_absent t (ks p) out) record {
          chain = Chain-frame (sp k) (sn k) _ _ 0 (ks p) l.chain λ a h.
              let ne = cell-ne-zero (sp k) (sn k) 0 a (ks p) l.chain h in
              let o = other-links a ne (ne_of_has (ks p) h out) (not-listed p a p_ne h out) in
              (
                prev-task_child_unlink k t t_ne a ne prev-ne ∙ o.0,
                next-task_child_unlink k t t_ne a ne ∙ o.1,
              );
          head_eq = stays p p_ne out ∙ l.head_eq;
          distinct = l.distinct;
        }
      ]
    where
      stays :
          (p : ℕ) → p ≢ 0 → has t (ks p) ≡ false → first_of (task_child_unlink k t) p ≡ first_of k p
      stays p p_ne out =
          let differs : p ≢ parent_of k t = λ e. false≢true (
            sym out
            ∙ subst (λ z. has t (ks z) ≡ true) (sym e) (tree.listed t t_ne (λ z. p_ne (e ∙ z)))) in
          rw (first-task_child_unlink k t t_ne p p_ne)
            (rw (ne_test p (parent_of k t) (sn k t) (first_of k p) differs) (ground arith))

  unlink-parent : (a : ℕ) → a ≢ t → parent_of (task_child_unlink k t) a ≡ parent_of k a
  unlink-parent a ne = parent-task_child_unlink k t t_ne a ∙ ne_test a t 0 (parent_of k a) ne

  unlink-parent_self : parent_of (task_child_unlink k t) t ≡ 0
  unlink-parent_self = parent-task_child_unlink k t t_ne t ∙ eq_test t t 0 (parent_of k t) refl

  -- Where the lists of children are as `ks` says, `task_child_unlink` takes the task out of the
  -- list of its parent, and leaves every other list as it was.
  pub task_child_unlink-Kids : Kids (task_child_unlink k t) (without ks t)
  task_child_unlink-Kids = record {
    lists = unlinked-list;
    parent_is = λ p a p_ne h.
        let back = erase-has a t (ks p) (tree.lists p p_ne).distinct h in
        unlink-parent a back.0 ∙ tree.parent_is p a p_ne back.1;
    listed = λ a a_ne ne. elim (ℕ_discrete a t) [
      | yes e ↦
          absurd
            (ne (subst (λ z. parent_of (task_child_unlink k t) z ≡ 0) (sym e) unlink-parent_self))
      | no differs ↦
          let same = unlink-parent a differs in
          rw same (
            has-erase_ne a t (ks (parent_of k a))
              (tree.lists (parent_of k a) (λ z. ne (same ∙ z))).distinct differs
              (tree.listed a a_ne (λ z. ne (same ∙ z))))
    ];
    alone = λ a a_ne z. elim (ℕ_discrete a t) [
      | yes e ↦ (
        prev-task_child_unlink k t t_ne a a_ne prev-ne ∙ eq_test a t 0 _ e,
        next-task_child_unlink k t t_ne a a_ne ∙ eq_test a t 0 _ e,
      )
      | no differs ↦
          let zero_parent = sym (unlink-parent a differs) ∙ z in
          let links = tree.alone a a_ne zero_parent in
          let o = other-links a a_ne differs (λ ne e. ne (sym e ∙ zero_parent)) in
          (
            prev-task_child_unlink k t t_ne a a_ne prev-ne ∙ o.0 ∙ links.0,
            next-task_child_unlink k t t_ne a a_ne ∙ o.1 ∙ links.1,
          )
    ];
  }
