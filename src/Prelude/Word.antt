-- ===== src/Prelude/Word.antt =====
-- The machine integers of the sources: size_t and uint64_t are numbers below 2 ^ 64, uint32_t and
-- unsigned int numbers below 2 ^ 32. An int is its bit pattern, a number below 2 ^ 32.
use Prim.Native.Nat.{ℕ, ◌+◌, ◌-◌, ◌%◌, ◌^◌}
use mathlib.Core.Bool.{Bool}
use cs144_me.Prelude.Tests.{ltb, leb, if◌then◌else◌}

-- size_t a + b, a - b and a * b
abbrev pub add_size : ℕ → ℕ → ℕ
add_size a b = (a + b) % 2 ^ 64

abbrev pub sub_size : ℕ → ℕ → ℕ
sub_size a b = (a + (2 ^ 64 - b)) % 2 ^ 64

-- uint32_t a + b and a - b
abbrev pub add_u32 : ℕ → ℕ → ℕ
add_u32 a b = (a + b) % 2 ^ 32

abbrev pub sub_u32 : ℕ → ℕ → ℕ
sub_u32 a b = (a + (2 ^ 32 - b)) % 2 ^ 32

-- (int)x for a size_t x, and (size_t)i for an int i, which extends the sign.
abbrev pub int_of_size : ℕ → ℕ
int_of_size x = x % 2 ^ 32

abbrev pub size_of_int : ℕ → ℕ
size_of_int i = if ltb i (2 ^ 31) then i else i + (2 ^ 64 - 2 ^ 32)

-- i < 0
abbrev pub is_negative : ℕ → Bool
is_negative i = leb (2 ^ 31) i
