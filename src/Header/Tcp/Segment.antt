-- ===== src/Header/Tcp/Segment.antt =====
-- TCPSegment::parse on what TCPSegment::serialize of libsponge/tcp_helpers/tcp_segment.cc writes, and on
-- a header that is too short.
use cs144_me.Prelude.{
  ℕ, ◌+◌, ◌-◌, ◌*◌, ◌^◌, ◌≤◌, ◌<◌, ◌≡◌, refl, false, List, ◌++◌, length, arith, append_assoc,
  length-append, length-replicate,
}
use cs144_me.Prelude.Result.{ok}
use cs144_me.Parser
use cs144_me.Parser.{ParseResult, NetParser, put_u16}
use cs144_me.Parser.Laws.{AllBytes, append-AllBytes, put_u16-AllBytes, zeros-AllBytes}
use cs144_me.Checksum
use cs144_me.Checksum.Laws.{parity_after, rest_sum, fill_verifies, add-append, value-lt, total_le}
use cs144_me.Header.Tcp.{
  TcpHeader, TcpSegment, front, fields, parse, finish, parse_segment, serialize_segment,
}
use cs144_me.Header.Tcp.Trip.{IsWord, padding, serialize_lem, parse_padded, parse-fields}

-- The bytes that follow the checksum of a segment.
abbrev pub tail_bytes : TcpSegment → List ℕ
tail_bytes seg = put_u16 seg.header.uptr ++ (padding seg.header ++ seg.payload)

-- The bytes of a segment whose checksum field holds c.
abbrev pub wire : TcpSegment → ℕ → List ℕ
wire seg c = front seg.header ++ (put_u16 c ++ tail_bytes seg)

-- The checksum that is filled in.
abbrev pub checksum_of : TcpSegment → ℕ → ℕ
checksum_of seg d = Checksum.value (Checksum.add (Checksum.new d) (wire seg 0))

fields-wire :
    (seg : TcpSegment) (c : ℕ)
    → (fields (record (seg.header) { cksum = c }) ++ padding seg.header) ++ seg.payload ≡ wire seg c
unfolding fields front
fields-wire seg c = simp append_assoc

pub serialize_segment_lem :
    (seg : TcpSegment) (d : ℕ)
    → 5 ≤ seg.header.doff
    → serialize_segment seg d ≡ ok (wire seg (checksum_of seg d))
unfolding serialize_segment
serialize_segment_lem seg d k = rw (
  serialize_lem (record (seg.header) { cksum = 0 }) k,
  ← add-append (Checksum.new d) (fields (record (seg.header) { cksum = 0 }) ++ padding seg.header)
      seg.payload,
  fields-wire seg 0,
  serialize_lem (record (seg.header) { cksum = checksum_of seg d }) k,
  fields-wire seg (checksum_of seg d),
)

front-even : (h : TcpHeader) → parity_after false (front h) ≡ false
unfolding front Parser.put_u16 Parser.put_u8 Parser.put_u32
front-even h = refl

pub front_bytes : (h : TcpHeader) → AllBytes (front h) × (length (front h) ≡ 16)
unfolding front Parser.put_u16 Parser.put_u8 Parser.put_u32
front_bytes h = omega arith

parse_segment_lem :
    (old : TcpSegment) (bytes : List ℕ) (d : ℕ) {h : TcpHeader} {r : ParseResult} {p : NetParser}
    → Checksum.value (Checksum.add (Checksum.new d) bytes) ≡ 0
    → parse (Parser.new bytes) ≡ (h, r, p)
    → parse_segment old bytes d ≡ (record { header = h; payload = p.buffer }, p.result)
unfolding parse_segment
parse_segment_lem old bytes d e f = ground arith

finish_short :
    (h : TcpHeader) (rest : List ℕ)
    → h.doff < 5
    → finish h.doff (Parser.new rest) ≡ (ParseResult.header_too_short, Parser.new rest)
unfolding finish
finish_short h rest short = ground arith

module _ (seg : TcpSegment) (d : ℕ) (bytes : AllBytes seg.payload) (v : IsWord seg.header)
    (k : 5 ≤ seg.header.doff) (small : d + 2 ^ 16 * (length seg.payload + 64) < 2 ^ 32) where
  tail-AllBytes : AllBytes (tail_bytes seg)
  tail-AllBytes =
      append-AllBytes _ _ (put_u16-AllBytes seg.header.uptr)
        (append-AllBytes _ _ (zeros-AllBytes (4 * seg.header.doff - 20)) bytes)

  pub length-tail : length (tail_bytes seg) ≡ 2 + (4 * seg.header.doff - 20) + length seg.payload
  unfolding put_u16
  length-tail = omega (
    arith,
    length-append (padding seg.header) seg.payload,
    length-replicate {A = ℕ} (4 * seg.header.doff - 20) 0,
  )

  no_wrap : rest_sum d (front seg.header) (tail_bytes seg) + 2 ^ 16 < 2 ^ 32
  no_wrap = omega (
    arith,
    total_le false (front seg.header) (front_bytes seg.header).0,
    (front_bytes seg.header).1,
    total_le false (tail_bytes seg) tail-AllBytes,
    length-tail,
  )

  filled-IsWord : IsWord (record (seg.header) { cksum = checksum_of seg d })
  filled-IsWord = record {
    sport = v.sport;
    dport = v.dport;
    seqno = v.seqno;
    ackno = v.ackno;
    doff_max = v.doff_max;
    win = v.win;
    cksum = value-lt (Checksum.add (Checksum.new d) (wire seg 0));
    uptr = v.uptr;
  }

  parse-wire : parse (Parser.new (wire seg (checksum_of seg d))) ≡ (
    record (seg.header) { cksum = checksum_of seg d },
    ParseResult.no_error,
    Parser.new seg.payload,
  )
  parse-wire =
      rw (← fields-wire seg (checksum_of seg d)) (
        parse_padded (record (seg.header) { cksum = checksum_of seg d }) seg.payload filled-IsWord
          k)

  -- What the bytes of the segment, with its checksum, parse to.
  pub parse_segment-wire :
      (old : TcpSegment)
      → parse_segment old (wire seg (checksum_of seg d)) d ≡ (
        record {
          header = record (seg.header) { cksum = checksum_of seg d };
          payload = seg.payload;
        },
        ParseResult.no_error,
      )
  unfolding Parser.new
  parse_segment-wire old =
      parse_segment_lem old _ d
        (fill_verifies d (front seg.header) (tail_bytes seg) (front-even seg.header) no_wrap)
        parse-wire

  -- A segment of bytes with at least five header words whose fields fit, and whose words cannot
  -- wrap the sum, is read back from what it is written to, with the same pseudo-checksum: no error,
  -- the same payload, and the header with its checksum filled in.
  pub parse_segment-serialize :
      (old : TcpSegment)
      → (s : List ℕ) × (serialize_segment seg d ≡ ok s)
        × (parse_segment old s d ≡ (
          record {
            header = record (seg.header) { cksum = checksum_of seg d };
            payload = seg.payload;
          },
          ParseResult.no_error,
        ))
  parse_segment-serialize old =
      (wire seg (checksum_of seg d), serialize_segment_lem seg d k, parse_segment-wire old)

-- Take the twenty bytes of a header whose fields fit, with the reserved bits zero and a data offset
-- below five, then any bytes, such that the checksum of all of them is good. The header's own parse
-- says that it is too short; parse_segment accepts the segment all the same, with that header, and
-- with all the bytes after the twenty as its payload.
pub short_header_accepted :
    (old : TcpSegment) (h : TcpHeader) (rest : List ℕ) (d : ℕ)
    → IsWord h
    → h.doff < 5
    → Checksum.value (Checksum.add (Checksum.new d) (fields h ++ rest)) ≡ 0
    → ((parse (Parser.new (fields h ++ rest))).1 ≡ ParseResult.header_too_short)
      × (parse_segment old (fields h ++ rest) d
          ≡ (record { header = h; payload = rest }, ParseResult.no_error))
unfolding Parser.new
short_header_accepted old h rest d v short good =
    (rw (short_parse), parse_segment_lem old (fields h ++ rest) d good short_parse)
  where
    short_parse :
        parse (Parser.new (fields h ++ rest)) ≡ (h, ParseResult.header_too_short, Parser.new rest)
    short_parse = rw (parse-fields h rest v, finish_short h rest short)
