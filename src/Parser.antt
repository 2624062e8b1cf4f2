-- ===== src/Parser.antt =====
-- libsponge/util/parser.hh and parser.cc: integers in network byte order, read from and written to
-- strings. A Buffer stands here for the bytes that its str() gives.
pub mod Laws
use cs144_me.Prelude.{
  ℕ, zero, suc, ◌+◌, ◌*◌, ◌/◌, ◌%◌, ◌^◌, Bool, true, false, List, [], ◌∷◌, ◌++◌, length, take, drop,
  replicate, ◌-◌, ltb, if◌then◌else◌,
}

pub data ParseResult : Type 0 where
  no_error bad_checksum packet_too_short wrong_ip_version header_too_short truncated_packet
        unsupported :
      ParseResult

abbrev pub is_error : ParseResult → Bool
is_error ParseResult.no_error = false
is_error _ = true

pub record NetParser : Type 0 where
  pub buffer : List ℕ
  pub result : ParseResult

unfoldable pub new : List ℕ → NetParser
new buffer = record { buffer = buffer; result = ParseResult.no_error }

unfoldable pub set_error : NetParser → ParseResult → NetParser
set_error p r = record p { result = r }

unfoldable pub error : NetParser → Bool
error p = is_error p.result

unfoldable pub check_size : NetParser → ℕ → NetParser
unfolding set_error
check_size p size =
    if ltb (length p.buffer) size then set_error p ParseResult.packet_too_short else p

-- The loop over the bytes of an integer of `len` bytes: `ret <<= 8; ret += byte`.
unfoldable pub parse_bytes : ℕ → ℕ → List ℕ → ℕ → ℕ
parse_bytes len zero bytes ret = ret
parse_bytes len (suc i) [] ret = ret
parse_bytes len (suc i) (b ∷ bytes) ret =
    parse_bytes len i bytes ((ret * 256 % 256 ^ len + b) % 256 ^ len)

-- `_parse_int` of a type of `len` bytes. The size is checked first, so no byte is missing.
unfoldable pub parse_int : ℕ → NetParser → ℕ × NetParser
unfolding check_size error parse_bytes
parse_int len p =
    let p' : NetParser = check_size p len in
    if error p'
    then (0, p')
    else (parse_bytes len len p'.buffer 0, record p' { buffer = drop len p'.buffer })

unfoldable pub u32 : NetParser → ℕ × NetParser
unfolding parse_int
u32 p = parse_int 4 p

unfoldable pub u16 : NetParser → ℕ × NetParser
unfolding parse_int
u16 p = parse_int 2 p

unfoldable pub u8 : NetParser → ℕ × NetParser
unfolding parse_int
u8 p = parse_int 1 p

unfoldable pub remove_prefix : ℕ → NetParser → NetParser
unfolding check_size error
remove_prefix n p =
    let p' : NetParser = check_size p n in
    if error p' then p' else record p' { buffer = drop n p'.buffer }

-- `_unparse_int`: the bytes that it pushes, the most significant first; k bytes are left.
unfoldable pub unparse_int : ℕ → ℕ → List ℕ
unparse_int zero val = []
unparse_int (suc k) val = (val / 256 ^ k % 256) ∷ unparse_int k val

unfoldable pub put_u32 : ℕ → List ℕ
unfolding unparse_int
put_u32 val = unparse_int 4 val

unfoldable pub put_u16 : ℕ → List ℕ
unfolding unparse_int
put_u16 val = unparse_int 2 val

unfoldable pub put_u8 : ℕ → List ℕ
unfolding unparse_int
put_u8 val = unparse_int 1 val

-- std::string::resize: cuts, or fills up with zero bytes.
abbrev pub resize : ℕ → List ℕ → List ℕ
resize n s = take n s ++ replicate (n - length s) 0

-- Six bytes in a row, as the loops over an EthernetAddress read and write them.
unfoldable pub parse_many : ℕ → NetParser → List ℕ × NetParser
unfolding u8
parse_many zero p = ([], p)
parse_many (suc k) p = let (b, p') = u8 p in let (bs, p'') = parse_many k p' in (b ∷ bs, p'')

unfoldable pub put_many : List ℕ → List ℕ
unfolding put_u8
put_many [] = []
put_many (b ∷ bs) = put_u8 b ++ put_many bs
