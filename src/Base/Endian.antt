-- ===== src/Base/Endian.antt =====
-- htonl and ntohl on a uint32_t as four bytes, the first one the most significant.
use Prim.Native.Nat.{ℕ, ◌+◌, ◌*◌, ◌/◌, ◌%◌, ◌^◌, ◌<◌}
use mathlib.Core.Path.{◌≡◌}
use mathlib.Core.List.{[], ◌∷◌, ◌++◌}
use native.Mathlib.Omega.{arith}
use ps5torrent.Base.Lists.{Bytes}

unfoldable pub encode32 : ℕ → Bytes
encode32 x = x / 2 ^ 24 % 256 ∷ x / 2 ^ 16 % 256 ∷ x / 2 ^ 8 % 256 ∷ x % 256 ∷ []

unfoldable pub decode32 : Bytes → ℕ
decode32 (a ∷ b ∷ c ∷ d ∷ rest) = a * 2 ^ 24 + b * 2 ^ 16 + c * 2 ^ 8 + d
decode32 _ = 0

pub decode32-encode32 : (x : ℕ) (rest : Bytes) → x < 2 ^ 32 → decode32 (encode32 x ++ rest) ≡ x
unfolding decode32 encode32
decode32-encode32 x rest h = omega arith
