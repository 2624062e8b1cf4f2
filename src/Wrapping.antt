-- ===== src/Wrapping.antt =====
-- libsponge/wrapping_integers.hh and wrapping_integers.cc: 32-bit sequence numbers and their
-- conversion from and to absolute 64-bit ones. A WrappingInt32 is its raw value.
pub mod Closest
use cs144_me.Prelude.{
  ℕ, zero, suc, ◌+◌, ◌-◌, ◌*◌, ◌/◌, ◌%◌, ◌^◌, Bool, not, ltb, leb, ◌==◌, if◌then◌else◌,
}
use cs144_me.Prelude.Word.{add_size, sub_size, add_u32, sub_u32}

abbrev pub WrappingInt32 : Type 0
WrappingInt32 = ℕ

unfoldable pub equal : WrappingInt32 → WrappingInt32 → Bool
equal a b = a == b

unfoldable pub not_equal : WrappingInt32 → WrappingInt32 → Bool
unfolding equal
not_equal a b = not (equal a b)

-- The distance from b to a, an int32_t, as its bit pattern.
unfoldable pub distance : WrappingInt32 → WrappingInt32 → ℕ
distance a b = sub_u32 a b

unfoldable pub plus : WrappingInt32 → ℕ → WrappingInt32
plus a b = add_u32 a b

-- `a + -b`, where `-b` is a uint32_t.
unfoldable pub minus : WrappingInt32 → ℕ → WrappingInt32
unfolding plus
minus a b = plus a (sub_u32 0 b)

unfoldable pub wrap : ℕ → WrappingInt32 → WrappingInt32
wrap n isn = add_size n isn % 2 ^ 32 % 2 ^ 32

abbrev pub big : ℕ
big = 2 ^ 32

-- `while (N < ISN) N = N + BIG;`
unfoldable pub raise : ℕ → ℕ → ℕ → ℕ
raise zero n isn = n
raise (suc fuel) n isn = let next = raise fuel (add_size n big) isn in if ltb n isn then next else n

-- `while (checkpoint >= abs) abs = abs + BIG;`
unfoldable pub pass : ℕ → ℕ → ℕ → ℕ
pass zero checkpoint abs = abs
pass (suc fuel) checkpoint abs =
    let next = pass fuel checkpoint (add_size abs big) in if leb abs checkpoint then next else abs

-- The end of `unwrap`: the candidate above the checkpoint, or the one below it.
unfoldable pub pick : ℕ → ℕ → ℕ
pick checkpoint abs =
    if ltb abs big
    then abs
    else if leb (sub_size checkpoint (sub_size abs big)) (sub_size abs checkpoint)
    then sub_size abs big
    else abs

-- Each of the two loops makes one round at most (`Closest`), so fuel 2 covers the last test.
unfoldable pub unwrap : WrappingInt32 → WrappingInt32 → ℕ → ℕ
unfolding raise pass pick
unwrap n isn checkpoint =
    let abs : ℕ = sub_size (raise 2 n isn) isn in
    if leb checkpoint abs
    then abs
    else pick checkpoint
        (pass 2 checkpoint (add_size abs (big * (sub_size checkpoint abs / big) % 2 ^ 64)))
