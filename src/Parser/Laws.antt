-- ===== src/Parser/Laws.antt =====
-- NetParser on what NetUnparser of libsponge/util/parser.cc writes.
use cs144_me.Prelude.{
  ℕ, zero, suc, ◌%◌, ◌^◌, ◌<◌, ◌≡◌, refl, List, [], ◌∷◌, ◌++◌, length, append_assoc, replicate,
  arith, drop-append, length-append,
}
use cs144_me.Parser.{
  NetParser, ParseResult, new, u8, u16, u32, put_u8, put_u16, put_u32, parse_many, put_many,
  remove_prefix, parse_int,
}

pub u8-put : (v : ℕ) (rest : List ℕ) → u8 (new (put_u8 v ++ rest)) ≡ (v % 256, new rest)
unfolding u8 put_u8 new
u8-put v rest = ground arith

pub u16-put : (v : ℕ) (rest : List ℕ) → u16 (new (put_u16 v ++ rest)) ≡ (v % 2 ^ 16, new rest)
unfolding u16 put_u16 new
u16-put v rest = ground arith

pub u32-put : (v : ℕ) (rest : List ℕ) → u32 (new (put_u32 v ++ rest)) ≡ (v % 2 ^ 32, new rest)
unfolding u32 put_u32 new
u32-put v rest = ground arith

-- Every element is a byte.
abbrev pub AllBytes : List ℕ → Type 0
AllBytes [] = Unit {0}
AllBytes (b ∷ bs) = (b < 256) × AllBytes bs

pub append-AllBytes : (xs ys : List ℕ) → AllBytes xs → AllBytes ys → AllBytes (xs ++ ys)
append-AllBytes [] ys h k = k
append-AllBytes (x ∷ xs) ys h k = (h.0, append-AllBytes xs ys h.1 k)

pub put_u16-AllBytes : (v : ℕ) → AllBytes (put_u16 v)
unfolding put_u16
put_u16-AllBytes v = omega arith

pub put_u32-AllBytes : (v : ℕ) → AllBytes (put_u32 v)
unfolding put_u32
put_u32-AllBytes v = omega arith

pub put_u8-AllBytes : (v : ℕ) → AllBytes (put_u8 v)
unfolding put_u8
put_u8-AllBytes v = omega arith

pub zeros-AllBytes : (n : ℕ) → AllBytes (replicate n 0)
zeros-AllBytes zero = tt
zeros-AllBytes (suc n) = (omega arith, zeros-AllBytes n)

pub parse_many-put :
    (bs rest : List ℕ)
    → AllBytes bs
    → parse_many (length bs) (new (put_many bs ++ rest)) ≡ (bs, new rest)
unfolding parse_many put_many
parse_many-put [] rest h = refl
parse_many-put (b ∷ bs) rest h = ground (
  arith,
  append_assoc (put_u8 b) (put_many bs) rest,
  u8-put b (put_many bs ++ rest),
  parse_many-put bs rest,
)

pub remove_prefix-new : (xs rest : List ℕ) → remove_prefix (length xs) (new (xs ++ rest)) ≡ new rest
unfolding remove_prefix new
remove_prefix-new xs rest = ground (arith, length-append xs rest, drop-append xs rest)

-- A read past the end gives 0, keeps the bytes and records the error.
pub parse_int_short :
    (len : ℕ) (p : NetParser)
    → length p.buffer < len
    → parse_int len p ≡ (0, record p { result = ParseResult.packet_too_short })
unfolding parse_int
parse_int_short len p h = ground arith
