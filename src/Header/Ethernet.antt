-- ===== src/Header/Ethernet.antt =====
-- EthernetHeader of libsponge/tcp_helpers/ethernet_header.hh and ethernet_header.cc, and
-- EthernetFrame (ethernet_frame.hh and ethernet_frame.cc). An address is a list of six bytes.
pub mod Trip
use cs144_me.Prelude.{ℕ, ◌^◌, List, [], ◌∷◌, ◌++◌, length, replicate, ltb, if◌then◌else◌}
use cs144_me.Parser
use cs144_me.Parser.{NetParser, ParseResult, u16, put_u16, parse_many, put_many}

abbrev pub EthernetAddress : Type 0
EthernetAddress = List ℕ

-- ETHERNET_BROADCAST
abbrev pub ethernet_broadcast : EthernetAddress
ethernet_broadcast = replicate 6 0xff

-- EthernetHeader::LENGTH, TYPE_IPv4 and TYPE_ARP
abbrev pub header_length : ℕ
header_length = 14

abbrev pub type_ipv4 : ℕ
type_ipv4 = 0x800

abbrev pub type_arp : ℕ
type_arp = 0x806

pub record EthernetHeader : Type 0 where
  pub dst : EthernetAddress
  pub src : EthernetAddress
  pub type : ℕ

-- A buffer that is too short leaves the object and the parser as they are.
unfoldable pub parse : EthernetHeader → NetParser → EthernetHeader × ParseResult × NetParser
parse old p =
    let (dst, p1) = parse_many 6 p in
    let (src, p2) = parse_many 6 p1 in
    let (type, p3) = u16 p2 in
    if ltb (length p.buffer) header_length
    then (old, ParseResult.packet_too_short, p)
    else (record { dst = dst; src = src; type = type }, p3.result, p3)

unfoldable pub serialize : EthernetHeader → List ℕ
serialize h = put_many h.dst ++ (put_many h.src ++ put_u16 h.type)

pub record EthernetFrame : Type 0 where
  pub header : EthernetHeader
  pub payload : List ℕ

unfoldable pub parse_frame : EthernetFrame → List ℕ → EthernetFrame × ParseResult
parse_frame old buffer =
    let (h, _, p) = parse old.header (Parser.new buffer) in
    (record { header = h; payload = p.buffer }, p.result)

unfoldable pub serialize_frame : EthernetFrame → List ℕ
serialize_frame f = serialize f.header ++ f.payload
