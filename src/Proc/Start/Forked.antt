-- ===== src/Proc/Start/Forked.antt =====
-- src/sys/process.c: the memory of the child of a fork.
use edge_os.Prelude.{ℕ, ◌+◌, ◌≤◌, ◌<◌, ◌≡◌, refl, sym, ap, ◌∙◌, subst, ◌≢◌, arith, []}
use edge_os.Prelude.Maps.{upd, upd_self, upd_ne}
use edge_os.Task.{Kernel, Ptr, TrapFrame, Regions}
use edge_os.Sched.Ops.{scheduler_task_set_blocked}
use edge_os.Proc.Tree.{
  task_child_unlink, task_child_link, link_first, hook_child, hook_first, hook_parent,
}
use edge_os.Proc.Tree.Link.{link-eq, body-task_child_link}
use edge_os.Proc.Exit.Place.{set_blocked-Same}
use edge_os.Proc.Memory.{
  slot_of, task_clear_user_regions, copy_regions, set_cr3, heap_bytes, heap_ext_bytes,
  user_heap_base_at, user_low_size, user_region_size, user_heap_size, user_heap_ext_size,
  copy_below, zero_between,
}
use edge_os.Proc.Start.{fork_begin, fork_inherit, fork_memory, fork_resume, fork_task}

-- the functions on the lists of children leave the regions alone
unlink-regions : (k : Kernel) (t : Ptr) → (task_child_unlink k t).regions ≡ k.regions
unfolding task_child_unlink
unlink-regions k t = ground arith

hooks-regions :
    (k : Kernel) (q t : Ptr)
    → ((hook_child k q t).regions ≡ k.regions)
      × ((hook_first k q t).regions ≡ k.regions)
      × ((hook_parent k q t).regions ≡ k.regions)
unfolding hook_child hook_first hook_parent
hooks-regions k q t = (refl, ground arith, refl)

first-regions : (z : Kernel) (q t : Ptr) → (link_first z q t).regions ≡ z.regions
unfolding link_first
first-regions z q t =
    let k1 = hook_child z q t in
    (hooks-regions (hook_first k1 q t) q t).2 ∙ (hooks-regions k1 q t).1 ∙ (hooks-regions z q t).0

link-regions :
    (k : Kernel) (q t : Ptr) → q ≢ 0 → t ≢ 0 → (task_child_link k q t).regions ≡ k.regions
link-regions k q t q_ne t_ne =
    ap (λ (z : Kernel). z.regions) (link-eq k (λ p. []) q t t_ne q_ne)
    ∙ first-regions (task_child_unlink k t) q t
    ∙ unlink-regions k t

-- What a fork gives the child, by the heap limit of the parent: the heap lies from
-- `user_heap_base_at` on, and its extension right behind the `user_heap_size` bytes of the heap.
pub record ForkedMemory (limit : ℕ) (parent child : Regions) : Type 0 where
  pub low : (a : ℕ) → a < user_low_size → child.low a ≡ parent.low a
  pub text : (a : ℕ) → a < user_region_size → child.text a ≡ parent.text a
  pub stack : (a : ℕ) → a < user_region_size → child.stack a ≡ parent.stack a
  pub heap_copied :
      (a : ℕ) → a < user_heap_size → user_heap_base_at + a < limit → child.heap a ≡ parent.heap a
  pub heap_whole :
      (a : ℕ) → a < user_heap_size → limit ≤ user_heap_base_at → child.heap a ≡ parent.heap a
  pub heap_cleared :
      (a : ℕ)
      → a < user_heap_size
      → user_heap_base_at < limit
      → limit ≤ user_heap_base_at + a
      → child.heap a ≡ 0
  pub ext_copied :
      (a : ℕ)
      → a < user_heap_ext_size
      → user_heap_base_at + user_heap_size + a < limit
      → child.heap_ext a ≡ parent.heap_ext a
  pub ext_cleared :
      (a : ℕ)
      → a < user_heap_ext_size
      → limit ≤ user_heap_base_at + user_heap_size + a
      → child.heap_ext a ≡ 0

-- The bytes that the code counts are those below the limit.
module _ (limit a : ℕ) where
  heap_inside : a < user_heap_size → user_heap_base_at + a < limit → a < heap_bytes limit
  unfolding heap_bytes
  heap_inside small below = ground arith

  heap_default : a < user_heap_size → limit ≤ user_heap_base_at → a < heap_bytes limit
  unfolding heap_bytes
  heap_default small none_set = ground arith

  heap_outside : user_heap_base_at < limit → limit ≤ user_heap_base_at + a → heap_bytes limit ≤ a
  unfolding heap_bytes
  heap_outside is_set over = ground arith

  ext_inside :
      a < user_heap_ext_size
      → user_heap_base_at + user_heap_size + a < limit
      → a < heap_ext_bytes limit
  unfolding heap_ext_bytes
  ext_inside small below = ground arith

  ext_outside : limit ≤ user_heap_base_at + user_heap_size + a → heap_ext_bytes limit ≤ a
  unfolding heap_ext_bytes
  ext_outside over = ground arith

copied : (n : ℕ) (p c : ℕ → ℕ) (a : ℕ) → a < n → copy_below n p c a ≡ p a
copied n p c a h = ground arith

copied_then : (n m : ℕ) (p c : ℕ → ℕ) (a : ℕ) → a < n → zero_between n m (copy_below n p c) a ≡ p a
copied_then n m p c a h = ground arith

zeroed : (n m : ℕ) (f : ℕ → ℕ) (a : ℕ) → n ≤ a → a < m → zero_between n m f a ≡ 0
zeroed n m f a lo hi = ground arith

copy_regions-ForkedMemory :
    (limit : ℕ) (p c : Regions) → ForkedMemory limit p (copy_regions limit p c)
unfolding copy_regions
copy_regions-ForkedMemory limit p c = record {
  low = copied user_low_size p.low c.low;
  text = copied user_region_size p.text c.text;
  stack = copied user_region_size p.stack c.stack;
  heap_copied = λ a small below.
      copied_then (heap_bytes limit) user_heap_size p.heap c.heap a
        (heap_inside limit a small below);
  heap_whole = λ a small none_set.
      copied_then (heap_bytes limit) user_heap_size p.heap c.heap a
        (heap_default limit a small none_set);
  heap_cleared = λ a small is_set over.
      zeroed (heap_bytes limit) user_heap_size (copy_below (heap_bytes limit) p.heap c.heap) a
        (heap_outside limit a is_set over) small;
  ext_copied = λ a small below.
      copied_then (heap_ext_bytes limit) user_heap_ext_size p.heap_ext c.heap_ext a
        (ext_inside limit a small below);
  ext_cleared = λ a small over.
      zeroed (heap_ext_bytes limit) user_heap_ext_size
        (copy_below (heap_ext_bytes limit) p.heap_ext c.heap_ext) a (ext_outside limit a over)
        small;
}

module _ (k : Kernel) (parent child : Ptr) (tf : TrapFrame) (parent_ne : parent ≢ 0)
    (child_ne : child ≢ 0) (differ : parent ≢ child) where
  -- the state before the copy of the memory
  begun : Kernel
  begun = set_cr3 (fork_begin k parent child) child

  cleaned : Kernel
  cleaned = task_clear_user_regions begun child

  linked : Kernel
  linked = task_child_link (fork_inherit cleaned parent child) parent child

  slots : slot_of parent ≢ slot_of child
  slots e = differ (omega arith)

  cleaned-other : (i : ℕ) → i ≢ slot_of child → cleaned.regions i ≡ k.regions i
  unfolding cleaned begun task_clear_user_regions set_cr3 fork_begin
  cleaned-other i ne = ground arith

  linked-regions : linked.regions ≡ cleaned.regions
  unfolding linked
  linked-regions =
      link-regions (fork_inherit cleaned parent child) parent child parent_ne child_ne
      ∙ unfold fork_inherit in refl

  cleaned-parent : (cleaned.tasks parent).space ≡ (k.tasks parent).space
  unfolding cleaned begun task_clear_user_regions set_cr3 fork_begin
  cleaned-parent = ground arith

  inherit-parent :
      ((fork_inherit cleaned parent child).tasks parent).space ≡ (cleaned.tasks parent).space
  unfolding fork_inherit
  inherit-parent = ap (λ u. u.space) (upd_ne cleaned.tasks child _ parent differ)

  linked-space : (linked.tasks parent).space ≡ (k.tasks parent).space
  unfolding linked
  linked-space =
      ap (λ b. b.space)
        (body-task_child_link (fork_inherit cleaned parent child) parent child child_ne parent_ne
          parent)
      ∙ inherit-parent
      ∙ cleaned-parent

  finished : Kernel
  finished = fork_resume (fork_memory linked parent child) child tf

  finished-regions :
      finished.regions
      ≡ upd linked.regions (slot_of child) (
          copy_regions
            (linked.tasks parent).space.user_heap_limit
            (linked.regions (slot_of parent))
            (linked.regions (slot_of child)))
  unfolding finished fork_resume fork_memory
  finished-regions = refl

  fork_task-eq : fork_task k parent child tf ≡ scheduler_task_set_blocked finished child
  unfolding fork_task finished linked cleaned begun
  fork_task-eq = refl

  -- The child of a fork, another slot than the parent, has in its regions what the parent had
  -- in the low region, the text and the stack. Where the heap limit of the parent is above the
  -- base of the heap, the child has the bytes of the heap and of its extension that lie below the
  -- limit, and zeros in the rest of both; where it is not, the child has the whole heap, and zeros
  -- in the extension. The regions of all other slots, that of the parent among them, stay.
  pub fork_task-ForkedMemory :
      ForkedMemory
        (k.tasks parent).space.user_heap_limit
        (k.regions (slot_of parent))
        ((fork_task k parent child tf).regions (slot_of child))
      × ((i : ℕ) → i ≢ slot_of child → (fork_task k parent child tf).regions i ≡ k.regions i)
  fork_task-ForkedMemory =
      let whole : (fork_task k parent child tf).regions ≡ finished.regions =
        ap (λ (z : Kernel). z.regions) fork_task-eq ∙ (set_blocked-Same finished child).memory in
      let all = whole ∙ finished-regions in
      let limit = (linked.tasks parent).space.user_heap_limit in
      let before : linked.regions (slot_of parent) ≡ k.regions (slot_of parent) =
        ap (λ r. r (slot_of parent)) linked-regions ∙ cleaned-other (slot_of parent) slots in
      let base =
        copy_regions-ForkedMemory limit (linked.regions (slot_of parent))
          (linked.regions (slot_of child)) in
      let same_limit = ap (λ s. s.user_heap_limit) linked-space in
      (
        subst (ForkedMemory (k.tasks parent).space.user_heap_limit (k.regions (slot_of parent)))
            (sym (ap (λ r. r (slot_of child)) all ∙ upd_self linked.regions (slot_of child) _))
            (subst
              (λ n. ForkedMemory n (k.regions (slot_of parent)) (
                copy_regions limit (linked.regions (slot_of parent))
                  (linked.regions (slot_of child))))
              same_limit
              (subst
                (λ p. ForkedMemory limit p (
                  copy_regions limit (linked.regions (slot_of parent))
                    (linked.regions (slot_of child))))
                before base)),
        λ i ne.
            ap (λ r. r i) all
            ∙ upd_ne linked.regions (slot_of child) _ i ne
            ∙ ap (λ r. r i) linked-regions
            ∙ cleaned-other i ne,
      )
