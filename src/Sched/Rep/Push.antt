-- ===== src/Sched/Rep/Push.antt =====
-- src/sys/scheduler.c: `rq_push_tail_locked` puts a task that is on no queue at the end of one.
use mathlib.Core.Bool.{false≢true}
use edge_os.Prelude.{
  ℕ, ◌≡◌, refl, sym, subst, ◌∙◌, ap, ◌≢◌, true, false, List, [], ◌∷◌, ◌++◌, ◌<◌, arith, ◌==◌,
  if◌then◌else◌, ℕ_discrete, Bool-cases, inl, inr, ◌||◌,
}
use edge_os.Dll.{
  has, last_or, head_or, snoc-IsDll, pv_snoc-other, nx_snoc-other, Chain-frame, cell-ne-zero,
  ne_of_has, has-snoc, last_or-has, not-has_zero,
}
use edge_os.Task.{Kernel, Cpu, sched_max_cpus}
use edge_os.Sched.Queue.{rq_link_tail}
use edge_os.Sched.Queue.Links.{pv, nx, on}
use edge_os.Sched.Queue.Moves.{
  tail_of, prev-rq_link_tail, next-rq_link_tail, on-rq_link_tail, cpus-rq_link_tail,
}
use edge_os.Sched.Rep.Defs.{Queues, OnCpu, Rep}

-- the queues with `t` behind the others of `c`
abbrev pub enq : Queues → ℕ → ℕ → Queues
enq q c t d = if d == c then q d ++ (t ∷ []) else q d

-- the last cell is a cell, if there is one
last-has : (xs : List ℕ) → last_or 0 xs ≢ 0 → has (last_or 0 xs) xs ≡ true
last-has [] h = absurd (h refl)
last-has (x ∷ xs) h = last_or-has x xs

last-snoc : (d t : ℕ) (xs : List ℕ) → t ≡ last_or d (xs ++ (t ∷ []))
last-snoc d t [] = refl
last-snoc d t (x ∷ xs) = last-snoc x t xs

head-snoc :
    (xs : List ℕ) (t tail : ℕ)
    → tail ≡ last_or 0 xs
    → has 0 xs ≡ false
    → (if tail == 0 then t else head_or xs 0) ≡ head_or (xs ++ (t ∷ [])) 0
head-snoc [] t tail e out = ground arith
head-snoc (x ∷ xs) t tail e out =
    let ne : tail ≢ 0 = λ z. ne_of_has (x ∷ xs) (last_or-has x xs) out (sym e ∙ z) in ground arith

pub enq_self : (q : Queues) (c t : ℕ) → enq q c t c ≡ q c ++ (t ∷ [])
enq_self q c t = ground arith

pub enq-other : (q : Queues) (c t d : ℕ) → d ≢ c → enq q c t d ≡ q d
enq-other q c t d ne = ground arith

module _ {k : Kernel} {q : Queues} (c t : ℕ) (r : Rep k q) (small : c < sched_max_cpus)
    (t_ne : t ≢ 0) (off : on k t ≡ false) where
  absent : (d : ℕ) → d < sched_max_cpus → has t (q d) ≡ false
  absent d ds = elim (Bool-cases (has t (q d))) [
    | inl e ↦ absurd (false≢true (sym off ∙ r.flagged d t ds e))
    | inr e ↦ e
  ]

  t-ne-tail : t ≢ tail_of k c
  t-ne-tail e =
      ne_of_has (q c) (last-has (q c) (λ z. t_ne (e ∙ o.tail ∙ z))) (absent c small)
        (sym o.tail ∙ sym e)
    where
      o : OnCpu k c (q c)
      o = r.on_cpu c small

  here : OnCpu (rq_link_tail k c t) c (q c ++ (t ∷ []))
  here =
      let o = r.on_cpu c small in
      let grown =
        snoc-IsDll (pv k) (nx k) t (pv (rq_link_tail k c t)) (nx (rq_link_tail k c t))
          (k.cpus c).rq_head (tail_of k c) (q c) t_ne o.dll o.tail (absent c small)
          (λ a a_ne. prev-rq_link_tail k c t t-ne-tail a) (next-rq_link_tail k c t t-ne-tail) in
      record {
        dll = record {
          chain = grown.chain;
          head_eq =
              head_now
              ∙ ap (λ z. if tail_of k c == 0 then t else z) o.dll.head_eq
              ∙ head-snoc (q c) t (tail_of k c) o.tail
                  (not-has_zero (pv k) (nx k) 0 (q c) o.dll.chain);
          distinct = grown.distinct;
        };
        tail = tail_now ∙ last-snoc 0 t (q c);
      }
    where
      head_now :
          ((rq_link_tail k c t).cpus c).rq_head
          ≡ (if tail_of k c == 0 then t else (k.cpus c).rq_head)
      head_now = ground (arith, cpus-rq_link_tail k c t c)

      tail_now : ((rq_link_tail k c t).cpus c).rq_tail ≡ t
      tail_now = ground (arith, cpus-rq_link_tail k c t c)

  there : (d : ℕ) → d < sched_max_cpus → d ≢ c → OnCpu (rq_link_tail k c t) d (q d)
  there d ds ne =
      let o = r.on_cpu d ds in
      record {
        dll = record {
          chain = Chain-frame (pv k) (nx k) _ _ 0 (q d) o.dll.chain λ a i.
              let a_ne = cell-ne-zero (pv k) (nx k) 0 a (q d) o.dll.chain i in
              let a_ne_t : a ≢ t = ne_of_has (q d) i (absent d ds) in
              let a_ne_l : a ≢ tail_of k c = not-last d ds ne a a_ne i in
              (
                prev-rq_link_tail k c t t-ne-tail a
                    ∙ pv_snoc-other (pv k) (nx k) t (tail_of k c) a a_ne_t,
                next-rq_link_tail k c t t-ne-tail a a_ne
                    ∙ nx_snoc-other (pv k) (nx k) t (tail_of k c) a a_ne_t a_ne_l,
              );
          head_eq = ap (λ (v : Cpu). v.rq_head) (same d ne) ∙ o.dll.head_eq;
          distinct = o.dll.distinct;
        };
        tail = ap (λ (v : Cpu). v.rq_tail) (same d ne) ∙ o.tail;
      }
    where
      same : (d : ℕ) → d ≢ c → (rq_link_tail k c t).cpus d ≡ k.cpus d
      same d ne = ground (arith, cpus-rq_link_tail k c t d)

      not-last :
          (d : ℕ)
          → d < sched_max_cpus
          → d ≢ c
          → (a : ℕ) → a ≢ 0
          → has a (q d) ≡ true
          → a ≢ tail_of k c
      not-last d ds ne a a_ne i e =
          let at = (r.on_cpu c small).tail in
          let m = last-has (q c) (λ z. a_ne (e ∙ at ∙ z)) in
          ne (r.apart d c a ds small i (subst (λ z. has z (q c) ≡ true) (sym at ∙ sym e) m))

  -- membership in the new queues
  has-enq :
      (d a : ℕ) → has a (enq q c t d) ≡ (if d == c then (a == t) || has a (q d) else has a (q d))
  has-enq d a = ground (arith, has-snoc a t (q d))

  -- A push of a task that is on no queue appends it to the queue of its CPU.
  pub rq_link_tail-Rep : Rep (rq_link_tail k c t) (enq q c t)
  rq_link_tail-Rep = record {
    on_cpu = λ d ds. elim (ℕ_discrete d c) [
      | yes e ↦
          subst (λ z. OnCpu (rq_link_tail k c t) z (enq q c t z)) (sym e) (rw (enq_self q c t) here)
      | no ne ↦ rw (enq-other q c t d ne) (there d ds ne)
    ];
    flagged = λ d a ds i. ground (arith, on-rq_link_tail k c t a, has-enq d a, r.flagged d a ds);
    listed = λ a a_ne i. elim (ℕ_discrete a t) [
      | yes e ↦ (c, small, ground (arith, has-enq c a))
      | no ne ↦
          let (d, ds, m) = r.listed a a_ne (ground (arith, on-rq_link_tail k c t a)) in
          (d, ds, ground (arith, has-enq d a))
    ];
    apart = λ d e a ds es i j.
        ground (arith, has-enq d a, has-enq e a, r.apart d e a ds es, absent d ds, absent e es);
  }
