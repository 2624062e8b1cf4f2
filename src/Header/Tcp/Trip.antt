-- ===== src/Header/Tcp/Trip.antt =====
-- TCPHeader::parse on what TCPHeader::serialize of libsponge/tcp_helpers/tcp_header.cc writes.
use cs144_me.Prelude.{
  ℕ, ◌-◌, ◌*◌, ◌%◌, ◌^◌, ◌≤◌, ◌<◌, ◌≡◌, refl, List, ◌++◌, length, replicate, arith, append_assoc,
  take_all, length-append, length-replicate,
}
use cs144_me.Prelude.Result.{ok}
use cs144_me.Parser
use cs144_me.Parser.{
  ParseResult, NetParser, u8, u16, u32, put_u8, put_u16, put_u32, remove_prefix, error, resize,
}
use cs144_me.Parser.Laws.{u8-put, u16-put, u32-put, remove_prefix-new}
use cs144_me.Header.Tcp.{
  TcpHeader, front, fields, serialize, parse, finish, flag_byte, has_bit, header_length,
}

-- The fields hold values of their types, and the data offset fits the four bits that it is sent in.
pub record IsWord (h : TcpHeader) : Type 0 where
  pub sport : h.sport < 2 ^ 16
  pub dport : h.dport < 2 ^ 16
  pub seqno : h.seqno < 2 ^ 32
  pub ackno : h.ackno < 2 ^ 32
  pub doff_max : h.doff < 16
  pub win : h.win < 2 ^ 16
  pub cksum : h.cksum < 2 ^ 16
  pub uptr : h.uptr < 2 ^ 16

pub length-fields : (h : TcpHeader) → length (fields h) ≡ 20
unfolding fields front put_u16 put_u32 put_u8
length-fields h = refl

-- The zero bytes that stand for options.
abbrev pub padding : TcpHeader → List ℕ
padding h = replicate (4 * h.doff - 20) 0

pub serialize_lem : (h : TcpHeader) → 5 ≤ h.doff → serialize h ≡ ok (fields h ++ padding h)
unfolding serialize
serialize_lem h k = ground (arith, length-fields h, take_all (4 * h.doff) (fields h))

-- Each flag is read back from the byte of flags.
flags_lem :
    (h : TcpHeader)
    → (has_bit (flag_byte h % 256) 32 ≡ h.urg)
      × (has_bit (flag_byte h % 256) 16 ≡ h.ack)
      × (has_bit (flag_byte h % 256) 8 ≡ h.psh)
      × (has_bit (flag_byte h % 256) 4 ≡ h.rst)
      × (has_bit (flag_byte h % 256) 2 ≡ h.syn)
      × (has_bit (flag_byte h % 256) 1 ≡ h.fin)
flags_lem h = ground arith

pub parse-fields :
    (h : TcpHeader) (rest : List ℕ)
    → IsWord h
    → parse (Parser.new (fields h ++ rest))
      ≡ (h, (finish h.doff (Parser.new rest)).0, (finish h.doff (Parser.new rest)).1)
unfolding parse fields front
parse-fields h rest v =
    simp (append_assoc, u8-put, u16-put, u32-put)
      (let (a, b, c, d, e, f) = flags_lem h in rw (a, b, c, d, e, f) (ground arith))

finish_lem :
    (h : TcpHeader) (rest : List ℕ)
    → 5 ≤ h.doff
    → finish h.doff (Parser.new (padding h ++ rest)) ≡ (ParseResult.no_error, Parser.new rest)
unfolding finish error Parser.new
finish_lem h rest k =
    ground (
      arith,
      length-replicate {A = ℕ} (4 * h.doff - 20) 0,
      remove_prefix-new (padding h) rest,
      skip,
    )
  where
    skip : h.doff * 4 - header_length ≡ length (padding h)
    skip = omega (arith, length-replicate {A = ℕ} (4 * h.doff - 20) 0)

pub parse_padded :
    (h : TcpHeader) (rest : List ℕ)
    → IsWord h
    → 5 ≤ h.doff
    → parse (Parser.new ((fields h ++ padding h) ++ rest))
      ≡ (h, ParseResult.no_error, Parser.new rest)
parse_padded h rest v k = rw (
  append_assoc (fields h) (padding h) rest,
  parse-fields h (padding h ++ rest) v,
  finish_lem h rest k,
)

-- A header with at least five words is read back from what it is written to, whatever follows:
-- every field, no error, and the parser stands where the header ends.
pub parse-serialize :
    (h : TcpHeader) (rest : List ℕ)
    → IsWord h
    → 5 ≤ h.doff
    → (s : List ℕ) × (serialize h ≡ ok s)
      × (parse (Parser.new (s ++ rest)) ≡ (h, ParseResult.no_error, Parser.new rest))
      × (length s ≡ 4 * h.doff)
parse-serialize h rest v k = (
  fields h ++ padding h,
  serialize_lem h k,
  parse_padded h rest v k,
  omega (
    arith,
    length-append (fields h) (padding h),
    length-fields h,
    length-replicate {A = ℕ} (4 * h.doff - 20) 0,
  ),
)
