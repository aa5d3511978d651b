-- ===== src/Simulate/Play/Shares.antt =====
-- internal/simulate/montecarlo.go: the shares of the workers.
use tennis_wiki.Base.{ℕ, zero, suc, ◌+◌, ◌*◌, ◌/◌, ◌%◌, ◌≤◌, ◌<◌, ◌≡◌, arith}
use Prim.Native.Nat.{min}
use native.Mathlib.Nat.{div-add-mod, mod-lt}
use tennis_wiki.Simulate.Play.{share}

-- The runs of the first `n` workers.
pub shares : ℕ → ℕ → ℕ → ℕ
shares runs workers zero = 0
shares runs workers (suc n) = shares runs workers n + share runs workers n

shares-lem :
    (runs workers n : ℕ) → shares runs workers n ≡ n * (runs / workers) + min n (runs % workers)
unfolding shares share
shares-lem runs workers zero = ground arith
shares-lem runs workers (suc n) = grind (arith, shares-lem runs workers n)

-- However many workers there are, their shares add up to the runs asked for, and no two shares
-- differ by more than one.
pub shares_total :
    (runs workers v w : ℕ)
    → 0 < workers
    → (shares runs workers workers ≡ runs) × (share runs workers v ≤ share runs workers w + 1)
unfolding share
shares_total runs workers v w h = (
  omega (arith, shares-lem runs workers workers, mod-lt runs h, div-add-mod runs workers),
  ground arith,
)
