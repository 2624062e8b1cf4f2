-- ===== src/Header/Tcp.antt =====
-- TCPHeader of libsponge/tcp_helpers/tcp_header.hh and tcp_header.cc, and the wire format of
-- TCPSegment (tcp_segment.hh and tcp_segment.cc).
pub mod Trip
pub mod Segment
use cs144_me.Prelude.{
  ℕ, ◌+◌, ◌-◌, ◌*◌, ◌/◌, ◌%◌, ◌^◌, Bool, true, false, ◌&&◌, List, [], ◌∷◌, ◌++◌, length, ltb, ◌==◌,
  if◌then◌else◌, take, replicate,
}
use cs144_me.Prelude.Result.{Result, ok, throw, runtime_error, ◌>>=◌}
use cs144_me.Wrapping.{WrappingInt32}
use cs144_me.Parser
use cs144_me.Parser.{
  NetParser, ParseResult, u8, u16, u32, put_u8, put_u16, put_u32, remove_prefix, error, resize,
}
use cs144_me.Checksum
use cs144_me.Checksum.{InternetChecksum}

pub record TcpHeader : Type 0 where
  pub sport : ℕ
  pub dport : ℕ
  pub seqno : WrappingInt32
  pub ackno : WrappingInt32
  pub doff : ℕ
  pub urg : Bool
  pub ack : Bool
  pub psh : Bool
  pub rst : Bool
  pub syn : Bool
  pub fin : Bool
  pub win : ℕ
  pub cksum : ℕ
  pub uptr : ℕ

-- TCPHeader::LENGTH
abbrev pub header_length : ℕ
header_length = 20

-- The field initialisers.
abbrev pub empty_header : TcpHeader
empty_header = record {
  sport = 0;
  dport = 0;
  seqno = 0;
  ackno = 0;
  doff = header_length / 4;
  urg = false;
  ack = false;
  psh = false;
  rst = false;
  syn = false;
  fin = false;
  win = 0;
  cksum = 0;
  uptr = 0;
}

-- `static_cast<bool>(x & mask)` for a mask of one bit.
abbrev pub has_bit : ℕ → ℕ → Bool
has_bit x mask = x / mask % 2 == 1

-- What `parse` returns when the fields are read: the data offset is checked, and options skipped.
unfoldable pub finish : ℕ → NetParser → ParseResult × NetParser
finish doff p =
    if ltb doff 5
    then (ParseResult.header_too_short, p)
    else let p' : NetParser = remove_prefix (doff * 4 - header_length) p in
      if error p' then (p'.result, p') else (ParseResult.no_error, p')

-- Every field is assigned, whatever the parser's state: a failed read assigns 0.
unfoldable pub parse : NetParser → TcpHeader × ParseResult × NetParser
parse p0 =
    let (sport, p1) = u16 p0 in
    let (dport, p2) = u16 p1 in
    let (seqno, p3) = u32 p2 in
    let (ackno, p4) = u32 p3 in
    let (offset, p5) = u8 p4 in
    let (fl_b, p6) = u8 p5 in
    let (win, p7) = u16 p6 in
    let (cksum, p8) = u16 p7 in
    let (uptr, p9) = u16 p8 in
    let (result, p) = finish (offset / 2 ^ 4) p9 in
    (
      record {
        sport = sport;
        dport = dport;
        seqno = seqno;
        ackno = ackno;
        doff = offset / 2 ^ 4;
        urg = has_bit fl_b 0b0010_0000;
        ack = has_bit fl_b 0b0001_0000;
        psh = has_bit fl_b 0b0000_1000;
        rst = has_bit fl_b 0b0000_0100;
        syn = has_bit fl_b 0b0000_0010;
        fin = has_bit fl_b 0b0000_0001;
        win = win;
        cksum = cksum;
        uptr = uptr;
      },
      result,
      p,
    )

-- The masks share no bit, so `|` adds them.
abbrev pub flag_byte : TcpHeader → ℕ
flag_byte h =
    (if h.urg then 0b0010_0000 else 0)
    + (if h.ack then 0b0001_0000 else 0)
    + (if h.psh then 0b0000_1000 else 0)
    + (if h.rst then 0b0000_0100 else 0)
    + (if h.syn then 0b0000_0010 else 0)
    + (if h.fin then 0b0000_0001 else 0)

-- The fields before the checksum, and those after it.
unfoldable pub front : TcpHeader → List ℕ
front h =
    put_u16 h.sport
    ++ (put_u16 h.dport
        ++ (put_u32 h.seqno
            ++ (put_u32 h.ackno
                ++ (put_u8 (h.doff * 2 ^ 4 % 256) ++ (put_u8 (flag_byte h) ++ put_u16 h.win)))))

unfoldable pub fields : TcpHeader → List ℕ
fields h = front h ++ (put_u16 h.cksum ++ put_u16 h.uptr)

unfoldable pub serialize : TcpHeader → Result (List ℕ)
serialize h = if ltb h.doff 5 then throw runtime_error else ok (resize (4 * h.doff) (fields h))

pub record TcpSegment : Type 0 where
  pub header : TcpHeader
  pub payload : List ℕ

abbrev pub empty_segment : TcpSegment
empty_segment = record { header = empty_header; payload = [] }

unfoldable pub length_in_sequence_space : TcpSegment → ℕ
length_in_sequence_space s =
    length s.payload + (if s.header.syn then 1 else 0) + (if s.header.fin then 1 else 0)

-- TCPSegment::parse assigns the object's fields unless the checksum is bad. The result of the
-- header's own parse is dropped: what is returned is the parser's error.
unfoldable pub parse_segment : TcpSegment → List ℕ → ℕ → TcpSegment × ParseResult
parse_segment seg buffer datagram_layer_checksum =
    let check : InternetChecksum = Checksum.add (Checksum.new datagram_layer_checksum) buffer in
    let (h, _, p) = parse (Parser.new buffer) in
    if Checksum.value check == 0
    then (record { header = h; payload = p.buffer }, p.result)
    else (seg, ParseResult.bad_checksum)

unfoldable pub serialize_segment : TcpSegment → ℕ → Result (List ℕ)
serialize_segment seg datagram_layer_checksum = do
  let header_out = record (seg.header) { cksum = 0 }
  zeroed ← serialize header_out
  let check = Checksum.add (Checksum.add (Checksum.new datagram_layer_checksum) zeroed) seg.payload
  filled ← serialize (record header_out { cksum = Checksum.value check })
  ok (filled ++ seg.payload)
