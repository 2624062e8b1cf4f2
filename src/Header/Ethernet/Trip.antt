-- ===== src/Header/Ethernet/Trip.antt =====
-- EthernetHeader and EthernetFrame of libsponge/tcp_helpers, parsed from what they write.
use cs144_me.Prelude.{
  ℕ, ◌^◌, ◌<◌, ◌≡◌, refl, false, ap, sym, ◌∙◌, List, [], ◌∷◌, ◌++◌, length, ltb, arith,
  append_assoc, length-append,
}
use cs144_me.Parser
use cs144_me.Parser.{ParseResult, NetParser, u16, put_u16, parse_many, put_many, put_u8}
use cs144_me.Parser.Laws.{AllBytes, u16-put, parse_many-put}
use cs144_me.Header.Ethernet.{
  EthernetAddress, EthernetHeader, EthernetFrame, parse, serialize, parse_frame, serialize_frame,
  header_length,
}

-- Six bytes.
abbrev pub IsAddress : EthernetAddress → Type 0
IsAddress e = AllBytes e × (length e ≡ 6)

pub length-put_many : (bs : List ℕ) → length (put_many bs) ≡ length bs
unfolding put_many put_u8
length-put_many [] = refl
length-put_many (b ∷ bs) = omega (arith, length-put_many bs)

pub parse_address :
    (e : EthernetAddress) (rest : List ℕ)
    → IsAddress e
    → parse_many 6 (Parser.new (put_many e ++ rest)) ≡ (e, Parser.new rest)
parse_address e rest (b, l) =
    ap (λ k. parse_many k (Parser.new (put_many e ++ rest))) (sym l) ∙ parse_many-put e rest b

abbrev pub wire : EthernetFrame → List ℕ
wire f = put_many f.header.dst ++ (put_many f.header.src ++ (put_u16 f.header.type ++ f.payload))

wire_lem : (f : EthernetFrame) → serialize_frame f ≡ wire f
unfolding serialize_frame serialize
wire_lem f = simp append_assoc

module _ (f : EthernetFrame) (d : IsAddress f.header.dst) (s : IsAddress f.header.src)
    (t : f.header.type < 2 ^ 16) where
  wire_long : ltb (length (wire f)) header_length ≡ false
  unfolding put_u16
  wire_long = ground (
    arith,
    length-append (put_many f.header.dst)
        (put_many f.header.src ++ (put_u16 f.header.type ++ f.payload)),
    length-append (put_many f.header.src) (put_u16 f.header.type ++ f.payload),
    length-put_many f.header.dst,
    length-put_many f.header.src,
    d.1,
    s.1,
  )

  parse-wire :
      (old : EthernetHeader)
      → parse old (Parser.new (wire f)) ≡ (f.header, ParseResult.no_error, Parser.new f.payload)
  unfolding parse Parser.new
  parse-wire old =
      rw
        (
          parse_address f.header.dst (put_many f.header.src ++ (put_u16 f.header.type ++ f.payload))
              d,
          parse_address f.header.src (put_u16 f.header.type ++ f.payload) s,
          u16-put f.header.type f.payload,
          wire_long,
        )
        (ground arith)

-- A frame with two addresses of six bytes and a 16-bit type is read back from what it is written
-- to, with no error.
pub parse_frame-serialize_frame :
    (old f : EthernetFrame)
    → IsAddress f.header.dst
    → IsAddress f.header.src
    → f.header.type < 2 ^ 16
    → parse_frame old (serialize_frame f) ≡ (f, ParseResult.no_error)
unfolding parse_frame Parser.new
parse_frame-serialize_frame old f d s t = rw (wire_lem f, parse-wire f d s t old.header) refl
