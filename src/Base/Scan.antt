-- ===== src/Base/Scan.antt =====
-- What the C library's isspace, strtol and scanf do with a text: spaces and decimal digits.
use Prim.Native.Nat.{ℕ, ◌+◌, ◌-◌, ◌*◌}
use mathlib.Core.Bool.{Bool, ◌&&◌, ◌||◌}
use mathlib.Core.List.{[], ◌∷◌}
use ps5torrent.Base.Tests.{leb, ◌==◌, if◌then◌else◌}
use ps5torrent.Base.Lists.{Bytes}
use ps5torrent.Base.Decimal.{is_digit}

-- isspace.
abbrev pub is_space : ℕ → Bool
is_space c = c == 32 || (leb 9 c && leb c 13)

unfoldable pub skip_spaces : Bytes → Bytes
skip_spaces [] = []
skip_spaces (c ∷ r) = let rest = skip_spaces r in if is_space c then rest else c ∷ r

unfoldable pub digits_value : ℕ → Bytes → ℕ
digits_value value [] = value
digits_value value (c ∷ r) =
    let more = digits_value (value * 10 + (c - b'0')) r in if is_digit c then more else value

-- What is left behind the digits.
unfoldable pub skip_digits : Bytes → Bytes
skip_digits [] = []
skip_digits (c ∷ r) = let rest = skip_digits r in if is_digit c then rest else c ∷ r
