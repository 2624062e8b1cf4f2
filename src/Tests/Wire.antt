-- ===== src/Tests/Wire.antt =====
-- The checksum and the wire formats of libsponge at concrete inputs.
use cs144_me.Prelude.{true, false, ℕ, ◌≡◌, refl, List, [], ◌∷◌, ◌++◌, arith}
use cs144_me.Prelude.Result.{ok}
use cs144_me.Parser
use cs144_me.Parser.{ParseResult, put_u16, put_u32, put_u8}
use cs144_me.Checksum
use cs144_me.Checksum.{InternetChecksum, value, add, fold, add_byte}
use cs144_me.Checksum.Laws.{fill_verifies}
use cs144_me.Header.Tcp
use cs144_me.Header.Tcp.{TcpHeader, TcpSegment, fields, front}
use cs144_me.Header.Tcp.Trip.{IsWord}
use cs144_me.Header.Tcp.Segment.{checksum_of, parse_segment-serialize, short_header_accepted}
use cs144_me.Header.Ipv4
use cs144_me.Header.Ipv4.{Ipv4Header, Ipv4Datagram}
use cs144_me.Header.Ipv4.Trip.{checksum_of as ip_checksum_of, parse_datagram-serialize}
use cs144_me.Header.Ethernet
use cs144_me.Header.Ethernet.{EthernetFrame}
use cs144_me.Header.Ethernet.Trip.{parse_frame-serialize_frame}
use cs144_me.Header.Arp
use cs144_me.Header.Arp.{ArpMessage}
use cs144_me.Header.Arp.Trip.{IsWord as IsMessage, parse-serialize_message}

fill_verifies_example :
    value (
      add (Checksum.new 5) (
        (1 ∷ 2 ∷ [])
        ++ (put_u16 (value (add (Checksum.new 5) ((1 ∷ 2 ∷ []) ++ (put_u16 0 ++ (9 ∷ [])))))
            ++ (9 ∷ []))))
    ≡ 0
fill_verifies_example = fill_verifies 5 (1 ∷ 2 ∷ []) (9 ∷ []) refl (omega arith)

abbrev full_sum : InternetChecksum
full_sum = record { sum = 0xffff; parity = false }

abbrev tcp_header : TcpHeader
tcp_header = record Tcp.empty_header {
  sport = 80;
  dport = 4000;
  seqno = 77;
  doff = 6;
  syn = true;
  win = 512;
}

tcp_header-IsWord : IsWord tcp_header
tcp_header-IsWord = omega arith

abbrev segment : TcpSegment
segment = record { header = tcp_header; payload = 104 ∷ 105 ∷ [] }

parse_segment-serialize_example :
    (s : List ℕ) × (Tcp.serialize_segment segment 6 ≡ ok s)
    × (Tcp.parse_segment Tcp.empty_segment s 6 ≡ (
      record {
        header = record tcp_header { cksum = checksum_of segment 6 };
        payload = 104 ∷ 105 ∷ [];
      },
      ParseResult.no_error,
    ))
parse_segment-serialize_example =
    parse_segment-serialize segment 6 (omega arith, (omega arith, tt)) tcp_header-IsWord
      (omega arith) (omega arith) Tcp.empty_segment

-- A header of no words whose sum is 0xffff.
abbrev short : TcpHeader
short = record Tcp.empty_header { doff = 0; cksum = 0xffff }

short_good : value (add (Checksum.new 0) (fields short ++ [])) ≡ 0
unfolding fields front put_u16 put_u32 put_u8 add add_byte fold value Checksum.new
short_good = refl

short_header_accepted_example :
    ((Tcp.parse (Parser.new (fields short ++ []))).1 ≡ ParseResult.header_too_short)
    × (Tcp.parse_segment Tcp.empty_segment (fields short ++ []) 0
        ≡ (record { header = short; payload = [] }, ParseResult.no_error))
short_header_accepted_example =
    short_header_accepted Tcp.empty_segment short [] 0 (omega arith) (omega arith) short_good

abbrev datagram : Ipv4Datagram
datagram = record {
  header = record Ipv4.empty_header { len = 23; src = 167772161; dst = 167772162 };
  payload = 1 ∷ 2 ∷ 3 ∷ [];
}

parse_datagram-serialize_example :
    let filled : Ipv4Header = record (datagram.header) { cksum = ip_checksum_of datagram.header } in
    (s : List ℕ) × (Ipv4.serialize_datagram datagram ≡ ok s)
    × (Ipv4.parse_datagram Ipv4.empty_datagram s
        ≡ (record { header = filled; payload = 1 ∷ 2 ∷ 3 ∷ [] }, ParseResult.no_error))
    × (Ipv4.parse Ipv4.empty_header (Parser.new s)
        ≡ (filled, ParseResult.no_error, Parser.new (1 ∷ 2 ∷ 3 ∷ [])))
parse_datagram-serialize_example =
    parse_datagram-serialize Ipv4.empty_datagram datagram (omega arith)

abbrev message : ArpMessage
message = record Arp.empty_message {
  opcode = Arp.opcode_request;
  sender_ip_address = 167772161;
  sender_ethernet_address = 1 ∷ 2 ∷ 3 ∷ 4 ∷ 5 ∷ 6 ∷ [];
}

message-IsWord : IsMessage message
message-IsWord = omega arith

parse-serialize_message_example :
    (s : List ℕ) × (Arp.serialize message ≡ ok s)
    × (Arp.parse Arp.empty_message s ≡ (message, ParseResult.no_error))
unfolding Arp.supported
parse-serialize_message_example =
    parse-serialize_message Arp.empty_message message refl message-IsWord

abbrev frame : EthernetFrame
frame = record {
  header = record {
    dst = Ethernet.ethernet_broadcast;
    src = 1 ∷ 2 ∷ 3 ∷ 4 ∷ 5 ∷ 6 ∷ [];
    type = Ethernet.type_arp;
  };
  payload = 7 ∷ [];
}

parse_frame-serialize_frame_example :
    Ethernet.parse_frame frame (Ethernet.serialize_frame frame) ≡ (frame, ParseResult.no_error)
parse_frame-serialize_frame_example =
    parse_frame-serialize_frame frame frame (omega arith) (omega arith) (omega arith)
