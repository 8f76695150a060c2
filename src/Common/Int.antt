-- ===== src/Common/Int.antt =====
-- Signed machine integers over the native numbers: a bit pattern and the integer it stands for.
use Prim.Native.Nat.{ℕ, ◌-◌, ◌^◌}
use pets_server_linux.Common.Tests.{ltb, if◌then◌else◌}

-- `negsuc n` is -(n + 1).
pub data ℤ : Type 0 where
  pos : ℕ → ℤ
  negsuc : ℕ → ℤ

-- The int32_t with the bits of `w`, a number below 2 ^ 32.
abbrev pub int32 : ℕ → ℤ
int32 w = if ltb w (2 ^ 31) then pos w else negsuc (2 ^ 32 - w - 1)
