-- ===== src/Header/Ipv4.antt =====
-- IPv4Header of libsponge/tcp_helpers/ipv4_header.hh and ipv4_header.cc, and the wire format of
-- IPv4Datagram (ipv4_datagram.hh and ipv4_datagram.cc).
pub mod Trip
use cs144_me.Prelude.{
  ℕ, ◌+◌, ◌-◌, ◌*◌, ◌/◌, ◌%◌, ◌^◌, Bool, true, false, not, List, [], ◌∷◌, ◌++◌, length, ltb, ◌==◌,
  if◌then◌else◌, take, replicate,
}
use cs144_me.Prelude.Result.{Result, ok, throw, runtime_error, ◌>>=◌}
use cs144_me.Parser
use cs144_me.Parser.{
  NetParser, ParseResult, u8, u16, u32, put_u8, put_u16, put_u32, remove_prefix, error, resize,
}
use cs144_me.Checksum
use cs144_me.Checksum.{InternetChecksum}
use cs144_me.Header.Tcp.{has_bit}

pub record Ipv4Header : Type 0 where
  pub ver : ℕ
  pub hlen : ℕ
  pub tos : ℕ
  pub len : ℕ
  pub id : ℕ
  pub df : Bool
  pub mf : Bool
  pub offset : ℕ
  pub ttl : ℕ
  pub proto : ℕ
  pub cksum : ℕ
  pub src : ℕ
  pub dst : ℕ

-- IPv4Header::LENGTH and PROTO_TCP
abbrev pub header_length : ℕ
header_length = 20

abbrev pub proto_tcp : ℕ
proto_tcp = 6

-- The field initialisers.
abbrev pub empty_header : Ipv4Header
empty_header = record {
  ver = 4;
  hlen = header_length / 4;
  tos = 0;
  len = 0;
  id = 0;
  df = true;
  mf = false;
  offset = 0;
  ttl = 128;
  proto = proto_tcp;
  cksum = 0;
  src = 0;
  dst = 0;
}

-- The checks of `parse` on the fields that it has read, in order. `data` is the whole buffer.
unfoldable pub finish : Ipv4Header → List ℕ → NetParser → ParseResult × NetParser
finish h bytes p =
    if ltb (length bytes) (4 * h.hlen)
    then (ParseResult.packet_too_short, p)
    else if not (h.ver == 4)
    then (ParseResult.wrong_ip_version, p)
    else if ltb h.hlen 5
    then (ParseResult.header_too_short, p)
    else if not (length bytes == h.len)
    then (ParseResult.truncated_packet, p)
    else let p' : NetParser = remove_prefix (h.hlen * 4 - header_length) p in
      let check : InternetChecksum = Checksum.add (Checksum.new 0) (take (4 * h.hlen) bytes) in
      if error p'
      then (p'.result, p')
      else if Checksum.value check == 0
      then (ParseResult.no_error, p')
      else (ParseResult.bad_checksum, p')

-- The fields, read in order.
unfoldable pub read_fields : NetParser → Ipv4Header × NetParser
read_fields p0 =
    let (first_byte, p1) = u8 p0 in
    let (tos, p2) = u8 p1 in
    let (len, p3) = u16 p2 in
    let (id, p4) = u16 p3 in
    let (fo_val, p5) = u16 p4 in
    let (ttl, p6) = u8 p5 in
    let (proto, p7) = u8 p6 in
    let (cksum, p8) = u16 p7 in
    let (src, p9) = u32 p8 in
    let (dst, p) = u32 p9 in
    (
      record {
        ver = first_byte / 2 ^ 4;
        hlen = first_byte % 2 ^ 4;
        tos = tos;
        len = len;
        id = id;
        df = has_bit fo_val 0x4000;
        mf = has_bit fo_val 0x2000;
        offset = fo_val % 2 ^ 13;
        ttl = ttl;
        proto = proto;
        cksum = cksum;
        src = src;
        dst = dst;
      },
      p,
    )

-- A buffer that is too short leaves the object and the parser as they are.
unfoldable pub parse : Ipv4Header → NetParser → Ipv4Header × ParseResult × NetParser
parse old p =
    let (h, p1) = read_fields p in
    let (result, p2) = finish h p.buffer p1 in
    if ltb (length p.buffer) header_length
    then (old, ParseResult.packet_too_short, p)
    else (h, result, p2)

-- The masks share no bit, so `|` adds them.
abbrev pub fragment_field : Ipv4Header → ℕ
fragment_field h = (if h.df then 0x4000 else 0) + (if h.mf then 0x2000 else 0) + h.offset % 2 ^ 13

-- The fields before the checksum. `(ver << 4) | (hlen & 0xf)` is cut to a uint8_t.
unfoldable pub front : Ipv4Header → List ℕ
front h =
    put_u8 ((h.ver * 2 ^ 4 + h.hlen % 2 ^ 4) % 256)
    ++ (put_u8 h.tos
        ++ (put_u16 h.len
            ++ (put_u16 h.id ++ (put_u16 (fragment_field h) ++ (put_u8 h.ttl ++ put_u8 h.proto)))))

unfoldable pub fields : Ipv4Header → List ℕ
fields h = front h ++ (put_u16 h.cksum ++ (put_u32 h.src ++ put_u32 h.dst))

unfoldable pub serialize : Ipv4Header → Result (List ℕ)
serialize h =
    if not (h.ver == 4)
    then throw runtime_error
    else if ltb (4 * h.hlen) header_length
    then throw runtime_error
    else ok (resize (4 * h.hlen) (fields h))

-- `len - 4 * hlen` as a uint16_t.
unfoldable pub payload_length : Ipv4Header → ℕ
payload_length h = (h.len + (2 ^ 32 - 4 * h.hlen)) % 2 ^ 16

unfoldable pub pseudo_cksum : Ipv4Header → ℕ
unfolding payload_length
pseudo_cksum h =
    (h.src / 2 ^ 16
      + h.src % 2 ^ 16
      + (h.dst / 2 ^ 16 + h.dst % 2 ^ 16)
      + h.proto
      + payload_length h)
    % 2 ^ 32

pub record Ipv4Datagram : Type 0 where
  pub header : Ipv4Header
  pub payload : List ℕ

abbrev pub empty_datagram : Ipv4Datagram
empty_datagram = record { header = empty_header; payload = [] }

-- IPv4Datagram::parse: the result of the header's own parse is dropped.
unfoldable pub parse_datagram : Ipv4Datagram → List ℕ → Ipv4Datagram × ParseResult
parse_datagram old buffer =
    let (h, _, p) = parse old.header (Parser.new buffer) in
    (
      record { header = h; payload = p.buffer },
      (if length p.buffer == payload_length h then p.result else ParseResult.packet_too_short),
    )

unfoldable pub serialize_datagram : Ipv4Datagram → Result (List ℕ)
serialize_datagram d =
    if not (length d.payload == payload_length d.header) then throw runtime_error else do
      let header_out = record (d.header) { cksum = 0 }
      zeroed ← serialize header_out
      let check = Checksum.add (Checksum.new 0) zeroed
      filled ← serialize (record header_out { cksum = Checksum.value check })
      ok (filled ++ d.payload)
