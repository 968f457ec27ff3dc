-- ===== src/Base/Int.antt =====
-- Differences of times, which are signed. `negsuc n` is -(n + 1).
use Prim.Native.Nat.{ℕ, ◌-◌}
use hardware_driver.Base.Tests.{leb, if◌then◌else◌}

pub data ℤ : Type 0 where
  pos negsuc : ℕ → ℤ

-- a - b, as an integer.
abbrev pub sub_ℕ : ℕ → ℕ → ℤ
sub_ℕ a b = if leb b a then pos (a - b) else negsuc (b - a - 1)
