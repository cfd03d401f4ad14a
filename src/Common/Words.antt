-- ===== src/Common/Words.antt =====
-- Fixed-width unsigned words as native numbers, their wrap-around written out.
use Prim.Native.Nat.{ℕ, ◌%◌, ◌^◌}

-- A conversion to uint8_t, uint16_t, uint32_t, uint64_t.
abbrev pub u8 : ℕ → ℕ
u8 x = x % 2 ^ 8

abbrev pub u16 : ℕ → ℕ
u16 x = x % 2 ^ 16

abbrev pub u32 : ℕ → ℕ
u32 x = x % 2 ^ 32

abbrev pub u64 : ℕ → ℕ
u64 x = x % 2 ^ 64
