-- ===== src/Sched/Rep/Remove.antt =====
-- `rq_remove_locked` and a pop take one task out of the queue that it is on.
use edge_os.Prelude.{
  ℕ, ◌≡◌, sym, subst, ◌∙◌, ap, ◌≢◌, true, false, ◌<◌, arith, ◌==◌, if◌then◌else◌, ℕ_discrete,
  Bool-cases, inl, inr,
}
use edge_os.Dll.{
  has, erase, pv_erase, nx_erase, erase-IsDll, head-erase, tail-erase, prev-ne_self,
  erase-elsewhere, Chain-frame, cell-ne-zero, erase-has, has-erase_ne, Distinct, erase_absent,
}
use edge_os.Task.{Kernel, Cpu, sched_max_cpus}
use edge_os.Sched.Queue.{rq_remove_locked}
use edge_os.Sched.Queue.Links.{
  pv, nx, on, prev-rq_remove_locked, next-rq_remove_locked, on-rq_remove_locked,
  cpus-rq_remove_locked,
}
use edge_os.Sched.Rep.Defs.{Queues, OnCpu, Rep}

-- the queues without `t`
abbrev pub drop : Queues → ℕ → Queues
drop q t c = erase t (q c)

-- what a removal of `t` from the queue of `c` has written
pub record Removed (k k' : Kernel) (c t : ℕ) : Type 0 where
  pub prevs : (a : ℕ) → a ≢ 0 → pv k' a ≡ pv_erase (pv k) (nx k) t a
  pub nexts : (a : ℕ) → a ≢ 0 → nx k' a ≡ nx_erase (pv k) (nx k) t a
  pub flags : (a : ℕ) → on k' a ≡ (if a == t then false else on k a)
  pub head : (k'.cpus c).rq_head ≡ (if pv k t == 0 then nx k t else (k.cpus c).rq_head)
  pub tail : (k'.cpus c).rq_tail ≡ (if nx k t == 0 then pv k t else (k.cpus c).rq_tail)
  pub others : (d : ℕ) → d ≢ c → k'.cpus d ≡ k.cpus d

module _ {k k' : Kernel} {q : Queues} (c t : ℕ) (r : Rep k q) (small : c < sched_max_cpus)
    (h : has t (q c) ≡ true) (w : Removed k k' c t) where
  here : OnCpu k' c (erase t (q c))
  here =
      let o = r.on_cpu c small in
      let gone =
        erase-IsDll (pv k) (nx k) t (pv k') (nx k') (k.cpus c).rq_head (q c) o.dll h w.prevs
          w.nexts in
      record {
        dll = record {
          chain = gone.chain;
          head_eq = w.head ∙ head-erase (pv k) (nx k) t (k.cpus c).rq_head (q c) o.dll h;
          distinct = gone.distinct;
        };
        tail = w.tail ∙ tail-erase (pv k) (nx k) t (k.cpus c).rq_head (q c) o.dll h _ o.tail;
      }

  there : (d : ℕ) → d < sched_max_cpus → d ≢ c → OnCpu k' d (q d)
  there d ds ne =
      let o = r.on_cpu d ds in
      let same = w.others d ne in
      record {
        dll = record {
          chain = Chain-frame (pv k) (nx k) (pv k') (nx k') 0 (q d) o.dll.chain λ a i.
              let a_ne = cell-ne-zero (pv k) (nx k) 0 a (q d) o.dll.chain i in
              let e =
                erase-elsewhere (pv k) (nx k) t (k.cpus c).rq_head (q c) (r.on_cpu c small).dll h a
                  a_ne (absent a d ds ne i) in
              (w.prevs a a_ne ∙ e.0, w.nexts a a_ne ∙ e.1);
          head_eq = ap (λ (v : Cpu). v.rq_head) same ∙ o.dll.head_eq;
          distinct = o.dll.distinct;
        };
        tail = ap (λ (v : Cpu). v.rq_tail) same ∙ o.tail;
      }
    where
      absent : (a d : ℕ) → d < sched_max_cpus → d ≢ c → has a (q d) ≡ true → has a (q c) ≡ false
      absent a d ds ne i = elim (Bool-cases (has a (q c))) [
        | inl e ↦ absurd (ne (r.apart d c a ds small i e))
        | inr e ↦ e
      ]

  not-elsewhere : (d : ℕ) → d < sched_max_cpus → d ≢ c → has t (q d) ≡ false
  not-elsewhere d ds ne = elim (Bool-cases (has t (q d))) [
    | inl e ↦ absurd (ne (r.apart d c t ds small e h))
    | inr e ↦ e
  ]

  distinct : (d : ℕ) → d < sched_max_cpus → Distinct (q d)
  distinct d ds = (r.on_cpu d ds).dll.distinct

  still : (a : ℕ) → a ≢ t → on k a ≡ true → (if a == t then false else on k a) ≡ true
  still a ne e = ground arith

  was : (a : ℕ) → on k' a ≡ true → (a ≢ t) × (on k a ≡ true)
  was a i = (ground (arith, w.flags a), ground (arith, w.flags a))

  pub Removed-Rep : Rep k' (drop q t)
  Removed-Rep = record {
    on_cpu = λ d ds. elim (ℕ_discrete d c) [
      | yes e ↦ subst (λ z. OnCpu k' z (erase t (q z))) (sym e) here
      | no ne ↦ rw (erase_absent t (q d) (not-elsewhere d ds ne)) (there d ds ne)
    ];
    flagged = λ d a ds i.
        let old = erase-has a t (q d) (distinct d ds) i in
        w.flags a ∙ still a old.0 (r.flagged d a ds old.1);
    listed = λ a a_ne i.
        let old = was a i in
        let (d, ds, m) = r.listed a a_ne old.1 in
        (d, ds, has-erase_ne a t (q d) (distinct d ds) old.0 m);
    apart = λ d e a ds es i j.
        r.apart d e a ds es (erase-has a t (q d) (distinct d ds) i).1
          (erase-has a t (q e) (distinct e es) j).1;
  }

module _ {k : Kernel} {q : Queues} (c t : ℕ) (r : Rep k q) (small : c < sched_max_cpus)
    (h : has t (q c) ≡ true) where
  rq_remove_locked-Removed : Removed k (rq_remove_locked k c t) c t
  rq_remove_locked-Removed =
      let d = (r.on_cpu c small).dll in
      let t_ne = cell-ne-zero (pv k) (nx k) 0 t (q c) d.chain h in
      let flag = r.flagged c t small h in
      let p = prev-ne_self (pv k) (nx k) t (k.cpus c).rq_head (q c) d h in
      record {
        prevs = λ a a_ne. prev-rq_remove_locked k c t t_ne flag a a_ne p;
        nexts = next-rq_remove_locked k c t t_ne flag;
        flags = on-rq_remove_locked k c t t_ne flag;
        head = ground (arith, cpus-rq_remove_locked k c t t_ne flag c p);
        tail = ground (arith, cpus-rq_remove_locked k c t t_ne flag c p);
        others = λ e ne. ground (arith, cpus-rq_remove_locked k c t t_ne flag e p);
      }

  -- `rq_remove_locked` takes the task out of its queue, wherever it stands in it.
  pub rq_remove_locked-Rep : Rep (rq_remove_locked k c t) (drop q t)
  rq_remove_locked-Rep = Removed-Rep c t r small h rq_remove_locked-Removed
