-- ===== src/Prelude/Words.antt =====
-- Rust's checked and saturating arithmetic on `u16`, `u32`, `u64` and a 64-bit `usize`.
use Prim.Native.Nat.{ℕ}
use mathlib.Core.Option.{Option, none, some}
use voicetext_gateway.Prelude.Tests.{leb, if◌then◌else◌}

abbrev pub u16_max : ℕ
u16_max = 65535

abbrev pub u32_max : ℕ
u32_max = 4294967295

abbrev pub u64_max : ℕ
u64_max = 18446744073709551615

-- `some n` when the result is representable below the type's maximum.
abbrev pub checked : ℕ → ℕ → Option ℕ
checked top n = if leb n top then some n else none

abbrev pub saturating : ℕ → ℕ → ℕ
saturating top n = if leb n top then n else top
