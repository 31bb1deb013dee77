-- ===== src/Prelude/WellFounded.antt =====
-- Recursion on a number that falls.
use Prim.Native.Nat.{ℕ, zero, suc, ◌<◌}
use mathlib.Core.WellFounded.{Acc, WellFounded}
use native.Mathlib.Omega.{arith}

Acc-below : (bound n : ℕ) → n < bound → Acc ◌<◌ n
Acc-below zero n h = elim h [ ]
Acc-below (suc bound) n h = Acc.intro n (λ m k. Acc-below bound m (omega arith))

unfoldable pub lt_wf : WellFounded ◌<◌
unfolding Acc-below
lt_wf = record { apply = λ n. Acc-below (suc n) n (omega arith) }
