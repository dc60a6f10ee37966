-- ===== src/Base/Words.antt =====
-- Stores of an `int` in Zephyr's fixed-width types: u8_t, u16_t and u32_t are numbers below 2 ^ w,
-- s16_t and s32_t are integers.
use Prim.Native.Nat.{ℕ, ◌-◌, ◌%◌, ◌<◌}
use mathlib.Core.Path.{◌≡◌}
use native.Mathlib.Omega.{arith}
use zephyr_samples.Base.Tests.{ltb, if◌then◌else◌}
use zephyr_samples.Base.Int.{ℤ, pos, negsuc, ◌≤ℤ◌}

-- Conversion to an unsigned type keeps the value modulo 2 ^ w.
abbrev pub to_u8 : ℤ → ℕ
to_u8 (pos n) = n % 256
to_u8 (negsuc n) = 255 - n % 256

abbrev pub to_u16 : ℤ → ℕ
to_u16 (pos n) = n % 65536
to_u16 (negsuc n) = 65535 - n % 65536

abbrev pub to_u32 : ℤ → ℕ
to_u32 (pos n) = n % 4294967296
to_u32 (negsuc n) = 4294967295 - n % 4294967296

-- The integer that a bit pattern of 16 bits stands for.
abbrev pub signed16 : ℕ → ℤ
signed16 w = if ltb w 32768 then pos w else negsuc (65535 - w)

abbrev pub signed32 : ℕ → ℤ
signed32 w = if ltb w 2147483648 then pos w else negsuc (4294967295 - w)

abbrev pub signed8 : ℕ → ℤ
signed8 w = if ltb w 128 then pos w else negsuc (255 - w)

-- Conversion to a signed type that is too narrow is the compiler's choice in C; the compilers that
-- build Zephyr keep the low bits.
abbrev pub to_s8 : ℤ → ℤ
to_s8 z = signed8 (to_u8 z)

abbrev pub to_s16 : ℤ → ℤ
to_s16 z = signed16 (to_u16 z)

abbrev pub to_s32 : ℤ → ℤ
to_s32 z = signed32 (to_u32 z)

pub to_u16-lt : (z : ℤ) → to_u16 z < 65536
to_u16-lt z = ground arith

pub to_s8_fits : (z : ℤ) → negsuc 127 ≤ℤ z → z ≤ℤ pos 127 → to_s8 z ≡ z
to_s8_fits z lo hi = ground arith

pub to_s16_fits : (z : ℤ) → negsuc 32767 ≤ℤ z → z ≤ℤ pos 32767 → to_s16 z ≡ z
to_s16_fits z lo hi = ground arith

pub to_s32_fits : (z : ℤ) → negsuc 2147483647 ≤ℤ z → z ≤ℤ pos 2147483647 → to_s32 z ≡ z
to_s32_fits z lo hi = ground arith
