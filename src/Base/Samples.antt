-- ===== src/Base/Samples.antt =====
-- An allocator that grants every request below 2 ^ 63 bytes: it meets both hypotheses.
use Prim.Native.Nat.{ℕ, ◌^◌}
use mathlib.Core.Bool.{Bool}
use native.Mathlib.Omega.{arith}
use ps5torrent.Base.Tests.{ltb, ltb→lt, lt→ltb}
use ps5torrent.Base.Memory.{Grants, Bounded}

abbrev pub roomy : ℕ → Bool
roomy n = ltb n (2 ^ 63)

pub roomy-Grants : Grants roomy
roomy-Grants n h = lt→ltb n (2 ^ 63) (omega arith)

pub roomy-Bounded : Bounded roomy
roomy-Bounded n h = ltb→lt n (2 ^ 63) h
