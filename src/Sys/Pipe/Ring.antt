-- ===== src/Sys/Pipe/Ring.antt =====
-- src/sys/syscall.c: the ring of bytes of a pipe, and copies to user memory.
use edge_os.Prelude.{
  ℕ, zero, suc, ◌+◌, ◌-◌, ◌%◌, ◌≤◌, ◌<◌, ◌≡◌, ◌≢◌, refl, sym, ap, ◌∙◌, List, [], ◌∷◌, ◌++◌, length,
  arith, subst,
}
use edge_os.Prelude.Maps.{upd, upd_self, upd_ne}
use edge_os.Sys.User.{Memory, read_bytes, write_bytes}
use edge_os.Sys.Pipe.{edge_pipe_size, Pipe, push, pop}

-- The bytes of the ring from a position on, and what a pipe holds.
unfoldable pub ring : (ℕ → ℕ) → ℕ → ℕ → List ℕ
ring buf at zero = []
ring buf at (suc n) = buf at ∷ ring buf ((at + 1) % edge_pipe_size) n

unfoldable pub contents : Pipe → List ℕ
contents p = ring p.buf p.rpos p.count

-- The positions of a pipe fit its count.
pub record IsRing (p : Pipe) : Type 0 where
  pub start : p.rpos < edge_pipe_size
  pub full : p.count ≤ edge_pipe_size
  pub end : p.wpos ≡ (p.rpos + p.count) % edge_pipe_size

pub length-ring : (buf : ℕ → ℕ) (at n : ℕ) → length (ring buf at n) ≡ n
unfolding ring
length-ring buf at zero = refl
length-ring buf at (suc n) = ap suc (length-ring buf ((at + 1) % edge_pipe_size) n)

-- A write behind the bytes does not change them, and adds one.
pub ring-push :
    (buf : ℕ → ℕ) (c at n : ℕ) (w : ℕ)
    → at < edge_pipe_size
    → n < edge_pipe_size
    → w ≡ (at + n) % edge_pipe_size
    → ring (upd buf w c) at (suc n) ≡ ring buf at n ++ (c ∷ [])
unfolding ring
ring-push buf c at zero w lo hi e =
    ap (λ (b : ℕ). b ∷ []) (let same : w ≡ at = omega arith in rw same (upd_self buf at c))
ring-push buf c at (suc n) w lo hi e =
    let other : at ≢ w = λ q. omega arith in
    let rest =
      ring-push buf c ((at + 1) % edge_pipe_size) n w (omega arith) (omega arith) (omega arith) in
    rw (upd_ne buf w c at other) (ap (λ (l : List ℕ). buf at ∷ l) rest)

pub push-contents :
    (c : ℕ) (p : Pipe)
    → IsRing p
    → p.count < edge_pipe_size
    → contents (push c p) ≡ contents p ++ (c ∷ [])
unfolding contents push
push-contents c p r room =
    let e : p.count + 1 ≡ suc p.count = omega arith in
    rw e (ring-push p.buf c p.rpos p.count p.wpos r.start room r.end)

pub push-IsRing : (c : ℕ) (p : Pipe) → IsRing p → p.count < edge_pipe_size → IsRing (push c p)
unfolding push
push-IsRing c p r room = record { start = r.start; full = omega arith; end = omega (arith, r.end) }

pub pop-contents : (p : Pipe) → 0 < p.count → contents p ≡ p.buf p.rpos ∷ contents (pop p)
unfolding contents pop
pop-contents p some_left =
    let e : p.count ≡ suc (p.count - 1) = omega arith in
    subst
      (λ (n : ℕ).
        ring p.buf p.rpos n
        ≡ p.buf p.rpos ∷ ring p.buf ((p.rpos + 1) % edge_pipe_size) (p.count - 1))
      (sym e) (unfold ring in refl)

pub pop-IsRing : (p : Pipe) → IsRing p → 0 < p.count → IsRing (pop p)
unfolding pop
pop-IsRing p r some_left = record {
  start = omega arith;
  full = omega (arith, r.full);
  end = omega (arith, r.end, r.start);
}

-- what memory holds after a copy to it
pub write_bytes-before : (bs : List ℕ) (m : Memory) (a b : ℕ) → b < a → write_bytes m a bs b ≡ m b
unfolding write_bytes
write_bytes-before [] m a b h = refl
write_bytes-before (x ∷ bs) m a b h =
    write_bytes-before bs (upd m a x) (a + 1) b (omega arith) ∙ upd_ne m a x b (λ e. omega arith)

pub read-write :
    (bs : List ℕ) (m : Memory) (a : ℕ) → read_bytes (write_bytes m a bs) a (length bs) ≡ bs
unfolding write_bytes read_bytes
read-write [] m a = refl
read-write (x ∷ bs) m a =
    rw
      (
        write_bytes-before bs (upd m a x) (a + 1) a (omega arith),
        upd_self m a x,
        read-write bs (upd m a x) (a + 1),
      )
      refl
