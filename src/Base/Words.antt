-- ===== src/Base/Words.antt =====
-- Unsigned machine words: a value is a natural number, and arithmetic wraps.
use Prim.Native.Nat.{ℕ, ◌+◌, ◌-◌, ◌*◌, ◌%◌, ◌^◌}

-- Addition and subtraction of `uint64_t`, `ULONGLONG` and `size_t`.
abbrev pub add64 : ℕ → ℕ → ℕ
add64 a b = (a + b) % 2 ^ 64

abbrev pub sub64 : ℕ → ℕ → ℕ
sub64 a b = (a + 2 ^ 64 - b) % 2 ^ 64

-- Multiplication of `uint64_t` and of `DWORD`.
abbrev pub mul64 : ℕ → ℕ → ℕ
mul64 a b = a * b % 2 ^ 64

abbrev pub mul32 : ℕ → ℕ → ℕ
mul32 a b = a * b % 2 ^ 32

-- The conversions to `uint32_t` (`DWORD`) and to `uint16_t` (`WORD`).
abbrev pub to_u32 : ℕ → ℕ
to_u32 a = a % 2 ^ 32

abbrev pub to_u16 : ℕ → ℕ
to_u16 a = a % 2 ^ 16

abbrev pub max_u16 : ℕ
max_u16 = 65535

-- The largest `int`.
abbrev pub max_i32 : ℕ
max_i32 = 2147483647

abbrev pub max_u32 : ℕ
max_u32 = 4294967295

abbrev pub max_u64 : ℕ
max_u64 = 18446744073709551615
