-- ===== src/Proc/Tree/Link.antt =====
-- src/sys/process.c: `task_child_link` puts a task at the head of the list of its new parent.
use edge_os.Prelude.{
  eq_test, ne_test, ℕ, true, false, ◌≡◌, refl, sym, subst, ◌∙◌, ◌≢◌, inl, inr, List, [], ◌∷◌, ◌==◌,
  if◌then◌else◌, ℕ_discrete, Bool-cases, ap,
}
use edge_os.Dll.{
  has, IsDll, Chain-frame, cons-IsDll, ne_of_has, cell-ne-zero, has-here, has-there, has-rest,
  head_or, pv_cons,
}
use edge_os.Task.{Kernel}
use edge_os.Proc.Tree.{task_child_unlink, task_child_link, link_first}
use edge_os.Proc.Tree.Links.{
  sp, sn, parent_of, first_of, prev-link_first, next-link_first, parent-link_first,
  first-link_first, body-link_first, body, ppid-task_child_unlink, ppid-link_first,
  body-task_child_unlink, parent-task_child_unlink,
}
use edge_os.Proc.Tree.Kids.{Kids, without, with_first, task_child_unlink-Kids}

-- the child has no parent yet
module _ (k : Kernel) (ks : ℕ → List ℕ) (q t : ℕ) (t_ne : t ≢ 0) (q_ne : q ≢ 0) (tree : Kids k ks)
    (orphan : parent_of k t ≡ 0) where
  absent : (p : ℕ) → p ≢ 0 → has t (ks p) ≡ false
  absent p p_ne = elim (Bool-cases (has t (ks p))) [
    | inl h ↦ absurd (p_ne (sym (tree.parent_is p t p_ne h) ∙ orphan))
    | inr h ↦ h
  ]

  head-ne : first_of k q ≢ t
  head-ne e = let l = tree.lists q q_ne in go (ks q) (sym l.head_eq ∙ e) (absent q q_ne)
    where
      go : (xs : List ℕ) → head_or xs 0 ≡ t → has t xs ≡ false → ⊥
      go [] e out = t_ne (sym e)
      go (x ∷ xs) e out = ne_of_has (x ∷ xs) (has-here x x xs refl) out e

  prev-eq : (a : ℕ) → a ≢ 0 → sp (link_first k q t) a ≡ pv_cons (sp k) (sn k) t (first_of k q) a
  prev-eq a ne = prev-link_first k q t a ne (tree.alone t t_ne orphan).0 head-ne

  -- a task that is neither `t` nor a child of `q` keeps its links
  other-links :
      (a : ℕ)
      → a ≢ 0
      → a ≢ t
      → parent_of k a ≢ q
      → (sp (link_first k q t) a ≡ sp k a) × (sn (link_first k q t) a ≡ sn k a)
  other-links a ne a_t a_q = (
    prev-eq a ne
        ∙ ne_test a t 0 _ a_t
        ∙ ne_test a (first_of k q) t (sp k a)
            (λ e. go (ks q) (λ h. tree.parent_is q a q_ne h) (e ∙ (tree.lists q q_ne).head_eq)),
    next-link_first k q t a ∙ ne_test a t (first_of k q) (sn k a) a_t,
  )
    where
      go : (xs : List ℕ) → (has a xs ≡ true → parent_of k a ≡ q) → a ≡ head_or xs 0 → ⊥
      go [] up e = ne e
      go (x ∷ xs) up e = a_q (up (has-here a x xs e))

  linked-list :
      (p : ℕ)
      → p ≢ 0
      → IsDll
          (sp (link_first k q t))
          (sn (link_first k q t))
          (first_of (link_first k q t) p)
          (with_first ks q t p)
  linked-list p p_ne = elim (ℕ_discrete p q) [
    | yes e ↦
        let l = subst (λ z. IsDll (sp k) (sn k) (first_of k z) (ks z)) e (tree.lists p p_ne) in
        rw (eq_test p q (t ∷ ks p) (ks p) e) (
          rw (first-link_first k q t p ∙ eq_test p q t (first_of k p) e) (
            rw e (
              cons-IsDll (sp k) (sn k) t _ _ (first_of k q) (ks q) t_ne l (absent q q_ne) prev-eq
                (λ a ne. next-link_first k q t a))))
    | no ne ↦
        let l = tree.lists p p_ne in
        rw (ne_test p q (t ∷ ks p) (ks p) ne) record {
          chain = Chain-frame (sp k) (sn k) _ _ 0 (ks p) l.chain λ a h.
              other-links a (cell-ne-zero (sp k) (sn k) 0 a (ks p) l.chain h)
                (ne_of_has (ks p) h (absent p p_ne))
                (λ e. ne (sym (tree.parent_is p a p_ne h) ∙ e));
          head_eq = first-link_first k q t p ∙ ne_test p q t (first_of k p) ne ∙ l.head_eq;
          distinct = l.distinct;
        }
  ]

  up_self : (a : ℕ) → a ≡ t → parent_of (link_first k q t) a ≡ q
  up_self a e = parent-link_first k q t a ∙ eq_test a t q _ e

  up_other : (a : ℕ) → a ≢ t → parent_of (link_first k q t) a ≡ parent_of k a
  up_other a ne = parent-link_first k q t a ∙ ne_test a t q _ ne

  link_first-parent_is :
      (p a : ℕ) → p ≢ 0 → has a (with_first ks q t p) ≡ true → parent_of (link_first k q t) a ≡ p
  link_first-parent_is p a p_ne h = elim (ℕ_discrete p q) [
    | yes e ↦
        let h' : has a (t ∷ ks p) ≡ true =
          subst (λ z. has a z ≡ true) (eq_test p q (t ∷ ks p) (ks p) e) h in
        elim (ℕ_discrete a t) [
          | yes same ↦ up_self a same ∙ sym e
          | no differs ↦
              up_other a differs ∙ tree.parent_is p a p_ne (has-rest a t (ks p) differs h')
        ]
    | no ne ↦
        let h' : has a (ks p) ≡ true =
          subst (λ z. has a z ≡ true) (ne_test p q (t ∷ ks p) (ks p) ne) h in
        up_other a (ne_of_has (ks p) h' (absent p p_ne)) ∙ tree.parent_is p a p_ne h'
  ]

  kept : (p a : ℕ) → has a (ks p) ≡ true → has a (with_first ks q t p) ≡ true
  kept p a h = elim (ℕ_discrete p q) [
    | yes e ↦ rw (eq_test p q (t ∷ ks p) (ks p) e) (has-there a t (ks p) h)
    | no ne ↦ rw (ne_test p q (t ∷ ks p) (ks p) ne) h
  ]

  pub link_first-Kids : Kids (link_first k q t) (with_first ks q t)
  link_first-Kids = record {
    lists = linked-list;
    parent_is = link_first-parent_is;
    listed = λ a a_ne ne. elim (ℕ_discrete a t) [
      | yes e ↦ rw (up_self a e) (rw (eq_test q q (t ∷ ks q) (ks q) refl) (has-here a t (ks q) e))
      | no differs ↦
          rw (up_other a differs)
            (kept (parent_of k a) a (tree.listed a a_ne (λ z. ne (up_other a differs ∙ z))))
    ];
    alone = λ a a_ne z. elim (ℕ_discrete a t) [
      | yes e ↦ absurd (q_ne (sym (up_self a e) ∙ z))
      | no differs ↦
          let zero_parent = sym (up_other a differs) ∙ z in
          let o = other-links a a_ne differs (λ e. q_ne (sym e ∙ zero_parent)) in
          let links = tree.alone a a_ne zero_parent in (o.0 ∙ links.0, o.1 ∙ links.1)
    ];
  }

module _ (k : Kernel) (ks : ℕ → List ℕ) (q t : ℕ) (t_ne : t ≢ 0) (q_ne : q ≢ 0) where
  pub link-eq : task_child_link k q t ≡ link_first (task_child_unlink k t) q t
  unfolding task_child_link
  link-eq = ne_test t 0 k _ t_ne ∙ ne_test q 0 _ _ q_ne

  -- Where the lists of children are as `ks` says, `task_child_link` takes the task `t` out of
  -- the list that it is in, if any, and puts it in front of the list of `q`; all other lists
  -- stay.
  pub task_child_link-Kids :
      Kids k ks → Kids (task_child_link k q t) (with_first (without ks t) q t)
  task_child_link-Kids tree = rw link-eq (
      link_first-Kids (task_child_unlink k t) (without ks t) q t t_ne q_ne
        (task_child_unlink-Kids k ks t t_ne tree)
        (parent-task_child_unlink k t t_ne t ∙ eq_test t t 0 _ refl))

module _ (k : Kernel) (q t : ℕ) (t_ne : t ≢ 0) (q_ne : q ≢ 0) where
  pub ppid-task_child_link :
      (a : ℕ)
      → ((task_child_link k q t).tasks a).ppid
        ≡ (if a == t then (k.tasks q).pid else (k.tasks a).ppid)
  ppid-task_child_link a = rw (link-eq k (λ p. []) q t t_ne q_ne) (
      rw (ppid-link_first (task_child_unlink k t) q t a) (
        rw (ap (λ b. b.pid) (body-task_child_unlink k t t_ne q))
          (rw (ppid-task_child_unlink k t t_ne a) refl)))

  pub body-task_child_link : (a : ℕ) → body ((task_child_link k q t).tasks a) ≡ body (k.tasks a)
  body-task_child_link a =
      rw (link-eq k (λ p. []) q t t_ne q_ne)
        (body-link_first (task_child_unlink k t) q t a ∙ body-task_child_unlink k t t_ne a)
