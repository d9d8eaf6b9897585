-- ===== src/Proc/Cred/Confined.antt =====
-- src/sys/process.c: what a task can make of its ids by any sequence of calls.
use edge_os.Prelude.{
  ℕ, ◌≡◌, refl, sym, ap, ◌∙◌, ◌≢◌, ◌⊎◌, inl, inr, List, [], ◌∷◌, Option, none, some, arith, ◌==◌,
  if◌then◌else◌, ◌%◌, subst, true, false, Bool, ◌||◌, ◌&&◌, not,
}
use edge_os.Prelude.Int.{pos, neg_one}
use edge_os.Task.{Kernel, Ptr, Cred}
use edge_os.Sched.Ops.{scheduler_current_task, scheduler_cpu_local, scheduler_cpu_id}
use edge_os.Proc.Cred.{
  minus_one, process_current_task, set_cred, setuid_cred, setgid_cred, setreuid_cred, setregid_cred,
  process_setuid, process_setgid, process_setreuid, process_setregid, process_set_umask, on_current,
  foreign_id, or_keep,
}

-- the calls that set ids
pub data Call : Type 0 where
  setuid setgid umask : ℕ → Call
  setreuid setregid : ℕ → ℕ → Call

abbrev pub call : Kernel → Call → Kernel
call k (setuid u) = (process_setuid k u).1
call k (setgid g) = (process_setgid k g).1
call k (umask m) = (process_set_umask k m).1
call k (setreuid r e) = (process_setreuid k r e).1
call k (setregid r e) = (process_setregid k r e).1

abbrev pub calls : Kernel → List Call → Kernel
calls k [] = k
calls k (c ∷ cs) = calls (call k c) cs

-- What an unprivileged task can reach from the ids `c`: each id is one of those that it had,
-- so no id of its user is 0.
pub record Confined (c d : Cred) : Type 0 where
  pub user : (d.uid ≡ c.uid) ⊎ (d.uid ≡ c.euid)
  pub effective : (d.euid ≡ c.uid) ⊎ (d.euid ≡ c.euid)
  pub group : (d.gid ≡ c.gid) ⊎ (d.gid ≡ c.egid)
  pub effective_group : (d.egid ≡ c.gid) ⊎ (d.egid ≡ c.egid)

Confined-refl : (c : Cred) → Confined c c
Confined-refl c = record {
  user = inl refl;
  effective = inr refl;
  group = inl refl;
  effective_group = inr refl;
}

abbrev AllWithin : Cred → Option Cred → Type 0
AllWithin c none = Unit {0}
AllWithin c (some d) = Confined c d

-- One of two numbers, for each of two numbers out of two.
either :
    (a b x y u : ℕ)
    → ((x ≡ a) ⊎ (x ≡ b))
    → ((y ≡ a) ⊎ (y ≡ b))
    → (u ≡ x) ⊎ (u ≡ y)
    → (u ≡ a) ⊎ (u ≡ b)
either a b x y u (inl p) q (inl r) = inl (r ∙ p)
either a b x y u (inr p) q (inl r) = inr (r ∙ p)
either a b x y u p (inl q) (inr r) = inl (r ∙ q)
either a b x y u p (inr q) (inr r) = inr (r ∙ q)

-- an id that is kept or is not foreign
kept :
    (id x y old : ℕ)
    → (old ≡ x) ⊎ (old ≡ y)
    → foreign_id id x y ≡ false
    → (or_keep id old ≡ x) ⊎ (or_keep id old ≡ y)
kept id x y old h e = ground arith

granted :
    (c d : Cred) (b : Bool) → (b ≡ true → Confined c d) → AllWithin c (if b then some d else none)
granted c d true f = f refl
granted c d false f = tt

refused :
    (c d : Cred) (b : Bool) → (b ≡ false → Confined c d) → AllWithin c (if b then none else some d)
refused c d true f = tt
refused c d false f = f refl

unprivileged :
    (c : Cred) (b : Bool) (o p : Option Cred)
    → b ≡ false
    → AllWithin c p
    → AllWithin c (if b then o else p)
unprivileged c true o p h w = absurd (ground arith)
unprivileged c false o p h w = w

one_of : (u x y : ℕ) → ((u == x) || (u == y)) ≡ true → (u ≡ x) ⊎ (u ≡ y)
one_of u x y h = ground arith

split_foreign :
    (e : ℕ) (a b : Bool) → e ≢ 0 → (not (e == 0) && (a || b)) ≡ false → (a ≡ false) × (b ≡ false)
split_foreign e a b ne h = ground arith

module _ (c d : Cred) (ne : d.euid ≢ 0) (near : Confined c d) where
  setuid-Confined : (u : ℕ) → AllWithin c (setuid_cred d u)
  unfolding setuid_cred
  setuid-Confined u = unprivileged c (d.euid == 0) _ _ (ground arith) (
      granted c _ _ λ h. record {
        user = near.user;
        effective =
            either c.uid c.euid d.uid d.euid u near.user near.effective (one_of u d.uid d.euid h);
        group = near.group;
        effective_group = near.effective_group;
      })

  setgid-Confined : (u : ℕ) → AllWithin c (setgid_cred d u)
  unfolding setgid_cred
  setgid-Confined u = unprivileged c (d.euid == 0) _ _ (ground arith) (
      granted c _ _ λ h. record {
        user = near.user;
        effective = near.effective;
        group = near.group;
        effective_group =
            either c.gid c.egid d.gid d.egid u near.group near.effective_group
              (one_of u d.gid d.egid h);
      })

  -- an id that `setreuid` or `setregid` sets
  chosen :
      (a b x y old id : ℕ)
      → ((x ≡ a) ⊎ (x ≡ b))
      → ((y ≡ a) ⊎ (y ≡ b))
      → (old ≡ x) ⊎ (old ≡ y)
      → foreign_id id x y ≡ false
      → (or_keep id old ≡ a) ⊎ (or_keep id old ≡ b)
  chosen a b x y old id p q r h = either a b x y (or_keep id old) p q (kept id x y old r h)

  setreuid-Confined : (r e : ℕ) → AllWithin c (setreuid_cred d r e)
  unfolding setreuid_cred
  setreuid-Confined r e = refused c _ _ λ h.
      let fine = split_foreign d.euid _ _ ne h in
      record {
        user = chosen _ _ _ _ d.uid r near.user near.effective (inl refl) fine.0;
        effective = chosen _ _ _ _ d.euid e near.user near.effective (inr refl) fine.1;
        group = near.group;
        effective_group = near.effective_group;
      }

  setregid-Confined : (r e : ℕ) → AllWithin c (setregid_cred d r e)
  unfolding setregid_cred
  setregid-Confined r e = refused c _ _ λ h.
      let fine = split_foreign d.euid _ _ ne h in
      record {
        user = near.user;
        effective = near.effective;
        group = chosen _ _ _ _ d.gid r near.group near.effective_group (inl refl) fine.0;
        effective_group = chosen _ _ _ _ d.egid e near.group near.effective_group (inr refl) fine.1;
      }

-- the ids of the current task
abbrev pub creds : Kernel → Cred
creds k = (k.tasks (process_current_task k)).cred

current-set_cred :
    (k : Kernel) (t : Ptr) (c : Cred)
    → process_current_task (set_cred k t c) ≡ process_current_task k
unfolding process_current_task set_cred scheduler_current_task scheduler_cpu_local scheduler_cpu_id
current-set_cred k t c = refl

cred-set_cred : (k : Kernel) (t : Ptr) (c : Cred) → ((set_cred k t c).tasks t).cred ≡ c
unfolding set_cred
cred-set_cred k t c = ground arith

creds-set_cred : (k : Kernel) (c : Cred) → creds (set_cred k (process_current_task k) c) ≡ c
creds-set_cred k c =
    ap (λ p. ((set_cred k (process_current_task k) c).tasks p).cred)
      (current-set_cred k (process_current_task k) c)
    ∙ cred-set_cred k (process_current_task k) c

module _ {ℓ} {A : Type ℓ} (c : Cred) (good bad : A) where
  on_current-Confined :
      (k : Kernel) (change : Cred → Option Cred)
      → Confined c (creds k)
      → AllWithin c (change (creds k))
      → Confined c (creds (on_current k change good bad).1)
  on_current-Confined k change near within =
      go (process_current_task k == 0) (change (creds k)) within
    where
      go :
          (b : Bool) (o : Option Cred)
          → AllWithin c o
          → Confined c (
              creds
                (if◌then◌else◌ {A = A × Kernel} b
                  (bad, k)
                  (elim o [
                    | none ↦ (bad, k)
                    | some d ↦ (good, set_cred k (process_current_task k) d)
                  ])).1)
      go true o w = near
      go false none w = near
      go false (some d) w = subst (Confined c) (sym (creds-set_cred k d)) w

call-Confined :
    (c : Cred) (k : Kernel) (x : Call)
    → (creds k).euid ≢ 0
    → Confined c (creds k)
    → Confined c (creds (call k x))
unfolding process_setuid process_setgid process_setreuid process_setregid process_set_umask
call-Confined c k (setuid u) ne near =
    on_current-Confined c 0 minus_one k (λ d. setuid_cred d u) near
      (setuid-Confined c (creds k) ne near u)
call-Confined c k (setgid u) ne near =
    on_current-Confined c 0 minus_one k (λ d. setgid_cred d u) near
      (setgid-Confined c (creds k) ne near u)
call-Confined c k (setreuid r e) ne near =
    on_current-Confined c (pos 0) neg_one k (λ d. setreuid_cred d r e) near
      (setreuid-Confined c (creds k) ne near r e)
call-Confined c k (setregid r e) ne near =
    on_current-Confined c (pos 0) neg_one k (λ d. setregid_cred d r e) near
      (setregid-Confined c (creds k) ne near r e)
call-Confined c k (umask m) ne near = go (process_current_task k == 0)
  where
    masked : Cred
    masked = record (creds k) { umask = m % 512 }

    go :
        (b : Bool)
        → Confined c (
            creds
              (if◌then◌else◌ {A = ℕ × Kernel} b
                (18, k)
                ((creds k).umask, set_cred k (process_current_task k) masked)).1)
    go true = near
    go false = subst (Confined c) (sym (creds-set_cred k masked)) record {
      user = near.user;
      effective = near.effective;
      group = near.group;
      effective_group = near.effective_group;
    }

-- A task whose user ids are both not 0 stays unprivileged: whatever calls it makes to set its
-- ids and its mask, each of its four ids is one of the two ids of that kind that it had at the
-- start, so neither of its user ids is ever 0.
pub calls-Confined :
    (k : Kernel) (xs : List Call)
    → (creds k).uid ≢ 0
    → (creds k).euid ≢ 0
    → Confined (creds k) (creds (calls k xs))
      × ((creds (calls k xs)).uid ≢ 0)
      × ((creds (calls k xs)).euid ≢ 0)
calls-Confined k xs real effective =
    let end = go k xs (Confined-refl (creds k)) in (end, apart end.user, apart end.effective)
  where
    apart : {u : ℕ} → (u ≡ (creds k).uid) ⊎ (u ≡ (creds k).euid) → u ≢ 0
    apart (inl e) z = real (sym e ∙ z)
    apart (inr e) z = effective (sym e ∙ z)

    go :
        (k' : Kernel) (xs : List Call)
        → Confined (creds k) (creds k')
        → Confined (creds k) (creds (calls k' xs))
    go k' [] near = near
    go k' (x ∷ xs) near =
        go (call k' x) xs (call-Confined (creds k) k' x (apart near.effective) near)
