-- ===== src/Prelude/Maps.antt =====
-- Memory as a function from addresses, and the write of one cell.
use Prim.Native.Nat.{ℕ}
use mathlib.Core.Path.{◌≡◌}
use mathlib.Core.Logic.{◌≢◌}
use native.Mathlib.Omega.{arith}
use edge_os.Prelude.Tests.{◌==◌, if◌then◌else◌}

module _ {ℓ} {A : Type ℓ} where
  abbrev pub upd : (ℕ → A) → ℕ → A → ℕ → A
  upd f p v a = if a == p then v else f a

  pub upd_self : (f : ℕ → A) (p : ℕ) (v : A) → upd f p v p ≡ v
  upd_self f p v = ground arith

  pub upd_ne : (f : ℕ → A) (p : ℕ) (v : A) (a : ℕ) → a ≢ p → upd f p v a ≡ f a
  upd_ne f p v a h = ground arith
