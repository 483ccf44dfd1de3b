-- ===== src/Prelude/Integers.antt =====
-- `i16` and `i64`: the integers, and the conversions of `TryFrom` between them and the unsigned types.
use Prim.Native.Nat.{ℕ}
use mathlib.Core.Option.{Option, none}
use voicetext_gateway.Prelude.Words.{checked}

pub data ℤ : Type 0 where
  pos : ℕ → ℤ
  negsuc : ℕ → ℤ

abbrev pub i16_max : ℕ
i16_max = 32767

abbrev pub i64_max : ℕ
i64_max = 9223372036854775807

-- `u16::try_from`, `u32::try_from` and `u64::try_from`, by the target's maximum.
abbrev pub try_from : ℕ → ℤ → Option ℕ
try_from top (pos n) = checked top n
try_from top (negsuc n) = none
