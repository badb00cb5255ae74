-- ===== src/Plan/Spend.antt =====
-- internal/plan/spend/share.go: when spending pauses the launches. `Floats` are the operations of
-- Go's `float64` that the file uses.
use command_center.Prelude.{ℕ, Bool, false, ◌&&◌, ltb, leb, nat_eq, string_eq}
use command_center.Prelude.Int.{ℤ, pos, negsuc}

pub record Floats (F : Type 0) : Type 0 where
  pub times : F → F → F
  pub plus : F → F → F
  pub hundred : F
  pub half : F
  pub truncate : F → ℤ

unfoldable pub pct : {F : Type 0} → Floats F → F → ℤ
pct ops u = ops.truncate (ops.plus (ops.times u ops.hundred) ops.half)

abbrev pub at_least : ℤ → ℕ → Bool
at_least (pos n) limit = leb limit n
at_least (negsuc n) limit = false

unfoldable pub paused : {F : Type 0} → Floats F → F → ℕ → Bool
unfolding pct
paused ops u limit = ltb 0 limit && at_least (pct ops u) limit
