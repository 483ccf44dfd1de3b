-- ===== src/Prelude/Floats.antt =====
-- `f32` and `f64` as the bits of their IEEE 754 encodings, with the tests that the program makes.
use Prim.Native.Nat.{ℕ, ◌/◌, ◌%◌}
use mathlib.Core.Bool.{Bool, not, ◌||◌}
use voicetext_gateway.Prelude.Tests.{leb, ◌==◌}

abbrev pub F32 : Type 0
F32 = ℕ

-- The exponent field is not all ones.
unfoldable pub is_finite : F32 → Bool
is_finite b = not (b / 0x800000 % 256 == 255)

-- `(0.0..=1.0).contains(&value)`: the encodings from +0 to 1.0 in order, and that of -0.
unfoldable pub in_unit_interval : F32 → Bool
in_unit_interval b = leb b 0x3f800000 || b == 0x80000000

abbrev pub F64 : Type 0
F64 = ℕ

unfoldable pub is_finite_f64 : F64 → Bool
is_finite_f64 b = not (b / 0x10000000000000 % 2048 == 2047)

unfoldable pub in_unit_interval_f64 : F64 → Bool
in_unit_interval_f64 b = leb b 0x3ff0000000000000 || b == 0x8000000000000000
