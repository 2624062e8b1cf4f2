-- ===== src/Header/Ipv4/Trip.antt =====
-- IPv4Datagram::parse on what serialize of libsponge/tcp_helpers/ipv4_datagram.cc writes.
use cs144_me.Prelude.{
  ℕ, ◌+◌, ◌-◌, ◌*◌, ◌%◌, ◌^◌, ◌≤◌, ◌<◌, ◌≡◌, refl, ap, sym, ◌∙◌, false, List, ◌++◌, length, take,
  replicate, arith, append_assoc, take_all, take-append, length-append, length-replicate,
}
use cs144_me.Prelude.Result.{ok}
use cs144_me.Parser
use cs144_me.Parser.{
  ParseResult, NetParser, u8, u16, u32, put_u8, put_u16, put_u32, remove_prefix, error, resize,
}
use cs144_me.Parser.Laws.{
  u8-put, u16-put, u32-put, remove_prefix-new, AllBytes, append-AllBytes, put_u32-AllBytes,
  zeros-AllBytes,
}
use cs144_me.Checksum
use cs144_me.Checksum.Laws.{parity_after, rest_sum, fill_verifies, value-lt, total_le}
use cs144_me.Header.Tcp.{has_bit}
use cs144_me.Header.Ipv4.{
  Ipv4Header, Ipv4Datagram, header_length, finish, read_fields, parse, fragment_field, front,
  fields, serialize, payload_length, parse_datagram, serialize_datagram,
}

-- The fields hold values of their types, the version and the lengths are what `parse` wants.
pub record IsWord (h : Ipv4Header) (payload : ℕ) : Type 0 where
  pub ver : h.ver ≡ 4
  pub hlen_min : 5 ≤ h.hlen
  pub hlen_max : h.hlen < 16
  pub tos : h.tos < 256
  pub len : h.len ≡ 4 * h.hlen + payload
  pub len_max : h.len < 2 ^ 16
  pub id : h.id < 2 ^ 16
  pub offset : h.offset < 2 ^ 13
  pub ttl : h.ttl < 256
  pub proto : h.proto < 256
  pub src : h.src < 2 ^ 32
  pub dst : h.dst < 2 ^ 32

abbrev pub padding : Ipv4Header → List ℕ
padding h = replicate (4 * h.hlen - 20) 0

abbrev pub tail_bytes : Ipv4Header → List ℕ
tail_bytes h = put_u32 h.src ++ (put_u32 h.dst ++ padding h)

-- The bytes of a header whose checksum field holds c.
abbrev pub wire : Ipv4Header → ℕ → List ℕ
wire h c = front h ++ (put_u16 c ++ tail_bytes h)

abbrev pub checksum_of : Ipv4Header → ℕ
checksum_of h = Checksum.value (Checksum.add (Checksum.new 0) (wire h 0))

fields-wire : (h : Ipv4Header) (c : ℕ) → fields (record h { cksum = c }) ++ padding h ≡ wire h c
unfolding fields front
fields-wire h c = simp append_assoc

length-fields : (h : Ipv4Header) → length (fields h) ≡ 20
unfolding fields front put_u16 put_u32 put_u8
length-fields h = refl

-- `parse` accepts the fields that pass its checks.
finish_ok :
    (h : Ipv4Header) (bytes rest : List ℕ) (p : NetParser)
    → h.ver ≡ 4
    → 5 ≤ h.hlen
    → length bytes ≡ h.len
    → 4 * h.hlen ≤ length bytes
    → remove_prefix (h.hlen * 4 - header_length) p ≡ Parser.new rest
    → Checksum.value (Checksum.add (Checksum.new 0) (take (4 * h.hlen) bytes)) ≡ 0
    → finish h bytes p ≡ (ParseResult.no_error, Parser.new rest)
unfolding finish error Parser.new
finish_ok h bytes rest p v k l m e c = rw (e, c, l, v) (ground arith)

parse_of :
    (old h : Ipv4Header) (bytes : List ℕ) (p : NetParser) (r : ParseResult) (p' : NetParser)
    → read_fields (Parser.new bytes) ≡ (h, p)
    → header_length ≤ length bytes
    → finish h bytes p ≡ (r, p')
    → parse old (Parser.new bytes) ≡ (h, r, p')
unfolding parse Parser.new
parse_of old h bytes p r p' e l f = rw (e, f) (ground arith)

module _ (h : Ipv4Header) (n : ℕ) (v : IsWord h n) where
  serialize_lem : (c : ℕ) → serialize (record h { cksum = c }) ≡ ok (wire h c)
  unfolding serialize
  serialize_lem c = rw (← fields-wire h c) (
      ground (
        arith,
        length-fields (record h { cksum = c }),
        take_all (4 * h.hlen) (fields (record h { cksum = c })),
      ))

  length-wire : (c : ℕ) → length (wire h c) ≡ 4 * h.hlen
  unfolding front put_u16 put_u32 put_u8
  length-wire c = omega (arith, length-replicate {A = ℕ} (4 * h.hlen - 20) 0)

  flags_lem :
      (has_bit (fragment_field h % 2 ^ 16) 0x4000 ≡ h.df)
      × (has_bit (fragment_field h % 2 ^ 16) 0x2000 ≡ h.mf)
      × (fragment_field h % 2 ^ 16 % 2 ^ 13 ≡ h.offset)
  flags_lem = ground arith

  read_fields_lem :
      (c : ℕ) (rest : List ℕ)
      → c < 2 ^ 16
      → read_fields (Parser.new (fields (record h { cksum = c }) ++ rest))
        ≡ (record h { cksum = c }, Parser.new rest)
  unfolding read_fields fields front
  read_fields_lem c rest k =
      simp (append_assoc, u8-put, u16-put, u32-put)
        (let (a, b, d) = flags_lem in rw (a, b, d) (ground arith))

  front_bytes :
      AllBytes (front h) × (length (front h) ≡ 10) × (parity_after false (front h) ≡ false)
  unfolding front Parser.put_u16 Parser.put_u8 Parser.put_u32
  front_bytes = (omega arith, refl, refl)

  tail-AllBytes : AllBytes (tail_bytes h)
  tail-AllBytes =
      append-AllBytes _ _ (put_u32-AllBytes h.src)
        (append-AllBytes _ _ (put_u32-AllBytes h.dst) (zeros-AllBytes (4 * h.hlen - 20)))

  length-tail : length (tail_bytes h) ≡ 8 + (4 * h.hlen - 20)
  unfolding put_u32
  length-tail = omega (arith, length-replicate {A = ℕ} (4 * h.hlen - 20) 0)

  no_wrap : rest_sum 0 (front h) (tail_bytes h) + 2 ^ 16 < 2 ^ 32
  no_wrap = omega (
    arith,
    total_le false (front h) front_bytes.0,
    front_bytes.1,
    total_le false (tail_bytes h) tail-AllBytes,
    length-tail,
  )

  verifies : Checksum.value (Checksum.add (Checksum.new 0) (wire h (checksum_of h))) ≡ 0
  verifies = fill_verifies 0 (front h) (tail_bytes h) front_bytes.2 no_wrap

  finish_lem :
      (payload : List ℕ)
      → length payload ≡ n
      → finish
          (record h { cksum = checksum_of h })
          (wire h (checksum_of h) ++ payload)
          (Parser.new (padding h ++ payload))
        ≡ (ParseResult.no_error, Parser.new payload)
  finish_lem payload e =
      finish_ok (record h { cksum = checksum_of h }) (wire h (checksum_of h) ++ payload) payload
        (Parser.new (padding h ++ payload)) v.ver v.hlen_min (omega (arith, total_length, v.len, e))
        (omega (arith, total_length))
        (ap (λ k. remove_prefix k (Parser.new (padding h ++ payload))) skip
          ∙ remove_prefix-new (padding h) payload)
        (ap (λ l. Checksum.value (Checksum.add (Checksum.new 0) l)) cut ∙ verifies)
    where
      w : List ℕ
      w = wire h (checksum_of h)

      total_length : length (w ++ payload) ≡ 4 * h.hlen + length payload
      total_length = omega (arith, length-append w payload, length-wire (checksum_of h))

      skip : h.hlen * 4 - header_length ≡ length (padding h)
      skip = omega (arith, length-replicate {A = ℕ} (4 * h.hlen - 20) 0)

      cut : take (4 * h.hlen) (w ++ payload) ≡ w
      cut =
          ap (λ k. take k (w ++ payload)) (sym (length-wire (checksum_of h)))
          ∙ take-append w payload

  pub parse_lem :
      (old : Ipv4Header) (payload : List ℕ)
      → length payload ≡ n
      → parse old (Parser.new (wire h (checksum_of h) ++ payload))
        ≡ (record h { cksum = checksum_of h }, ParseResult.no_error, Parser.new payload)
  parse_lem old payload e =
      parse_of old (record h { cksum = checksum_of h }) (wire h (checksum_of h) ++ payload)
        (Parser.new (padding h ++ payload)) _ _
        (ap (λ l. read_fields (Parser.new l)) split
          ∙ read_fields_lem (checksum_of h) (padding h ++ payload)
              (value-lt (Checksum.add (Checksum.new 0) (wire h 0))))
        (omega (
          arith,
          length-append (wire h (checksum_of h)) payload,
          length-wire (checksum_of h),
          v.hlen_min,
        ))
        (finish_lem payload e)
    where
      split :
          wire h (checksum_of h) ++ payload
          ≡ fields (record h { cksum = checksum_of h }) ++ (padding h ++ payload)
      split =
          ap (λ l. l ++ payload) (sym (fields-wire h (checksum_of h)))
          ∙ append_assoc (fields (record h { cksum = checksum_of h })) (padding h) payload

  serialize_datagram_lem :
      (payload : List ℕ)
      → length payload ≡ n
      → serialize_datagram (record { header = h; payload = payload })
        ≡ ok (wire h (checksum_of h) ++ payload)
  unfolding serialize_datagram payload_length
  serialize_datagram_lem payload e =
      rw (serialize_lem 0, serialize_lem (checksum_of h)) (ground (arith, v.len, v.len_max, e))

-- A datagram whose header has version 4, at least five words, and the length of the whole, with
-- fields that fit, is written, and read back with its checksum filled in: no error is reported, and
-- none by the header's own parse either, which checks the checksum.
pub parse_datagram-serialize :
    (old d : Ipv4Datagram)
    → IsWord d.header (length d.payload)
    → let filled : Ipv4Header = record (d.header) { cksum = checksum_of d.header } in
      (s : List ℕ) × (serialize_datagram d ≡ ok s)
      × (parse_datagram old s
          ≡ (record { header = filled; payload = d.payload }, ParseResult.no_error))
      × (parse old.header (Parser.new s) ≡ (filled, ParseResult.no_error, Parser.new d.payload))
unfolding parse_datagram payload_length Parser.new
parse_datagram-serialize old d v = (
  wire d.header (checksum_of d.header) ++ d.payload,
  serialize_datagram_lem d.header (length d.payload) v d.payload refl,
  rw (parse_lem d.header (length d.payload) v old.header d.payload refl)
      (ground (arith, v.len, v.len_max)),
  parse_lem d.header (length d.payload) v old.header d.payload refl,
)
