-- ===== src/Checksum.antt =====
-- InternetChecksum of libsponge/util/util.hh and util.cc: the one's complement sum of the 16-bit
-- words of a packet. `_sum` is a uint32_t.
pub mod Laws
use cs144_me.Prelude.{
  ℕ, zero, suc, ◌+◌, ◌-◌, ◌*◌, ◌/◌, ◌%◌, ◌^◌, Bool, true, false, not, List, [], ◌∷◌, ltb,
  if◌then◌else◌,
}
use cs144_me.Prelude.Word.{add_u32}

pub record InternetChecksum : Type 0 where
  pub sum : ℕ
  pub parity : Bool

unfoldable pub new : ℕ → InternetChecksum
new initial_sum = record { sum = initial_sum; parity = false }

-- One round of the loop of `add`: `val` is a uint16_t.
unfoldable pub add_byte : InternetChecksum → ℕ → InternetChecksum
add_byte c b = record {
  sum = add_u32 c.sum (if c.parity then b else b * 256 % 2 ^ 16);
  parity = not c.parity;
}

unfoldable pub add : InternetChecksum → List ℕ → InternetChecksum
unfolding add_byte
add c [] = c
add c (b ∷ bs) = add (add_byte c b) bs

-- `while (ret > 0xffff) ret = (ret >> 16) + (ret & 0xffff);`
unfoldable pub fold : ℕ → ℕ → ℕ
fold zero ret = ret
fold (suc fuel) ret =
    let next = fold fuel (ret / 2 ^ 16 + ret % 2 ^ 16) in if ltb 0xffff ret then next else ret

-- Two rounds bring a uint32_t below 2 ^ 16 (`Laws`), so fuel 3 covers the last test.
unfoldable pub value : InternetChecksum → ℕ
unfolding fold
value c = 0xffff - fold 3 c.sum
