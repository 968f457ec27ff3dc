-- ===== src/Float32.antt =====
-- `float` as its 32-bit pattern. The arithmetic of the type is the hardware's: an interface.
use hardware_driver.Base.{ℕ, ◌<◌, ◌^◌}

-- What the code computes with floats: products with a whole number, conversions to small integers
-- (an `int16_t` by its 16-bit pattern), from a whole number, and from a `double` pattern. A
-- conversion out of range is undefined in C++; here it is some value of the target type.
pub record FloatOps : Type 0 where
  pub scale : ℕ → ℕ → ℕ
  pub to_uint8 : ℕ → ℕ
  pub to_int16 : ℕ → ℕ
  pub of_uint8 : ℕ → ℕ
  pub of_double : ℕ → ℕ
  pub to_uint8_lt : (x : ℕ) → to_uint8 x < 2 ^ 8
  pub to_int16_lt : (x : ℕ) → to_int16 x < 2 ^ 16
