-- ===== src/Header/Arp.antt =====
-- ARPMessage of libsponge/tcp_helpers/arp_message.hh and arp_message.cc.
pub mod Trip
use cs144_me.Prelude.{
  ℕ, Bool, not, ◌&&◌, ◌||◌, List, ◌++◌, length, replicate, ltb, ◌==◌, if◌then◌else◌,
}
use cs144_me.Prelude.Result.{Result, ok, throw, runtime_error}
use cs144_me.Parser
use cs144_me.Parser.{
  ParseResult, NetParser, u8, u16, u32, put_u8, put_u16, put_u32, parse_many, put_many,
}
use cs144_me.Header.Ethernet.{EthernetAddress, type_ipv4}

-- ARPMessage::LENGTH, TYPE_ETHERNET, OPCODE_REQUEST and OPCODE_REPLY
abbrev pub message_length : ℕ
message_length = 28

abbrev pub type_ethernet : ℕ
type_ethernet = 1

abbrev pub opcode_request : ℕ
opcode_request = 1

abbrev pub opcode_reply : ℕ
opcode_reply = 2

pub record ArpMessage : Type 0 where
  pub hardware_type : ℕ
  pub protocol_type : ℕ
  pub hardware_address_size : ℕ
  pub protocol_address_size : ℕ
  pub opcode : ℕ
  pub sender_ethernet_address : EthernetAddress
  pub sender_ip_address : ℕ
  pub target_ethernet_address : EthernetAddress
  pub target_ip_address : ℕ

-- The field initialisers.
abbrev pub empty_message : ArpMessage
empty_message = record {
  hardware_type = type_ethernet;
  protocol_type = type_ipv4;
  hardware_address_size = 6;
  protocol_address_size = 4;
  opcode = 0;
  sender_ethernet_address = replicate 6 0;
  sender_ip_address = 0;
  target_ethernet_address = replicate 6 0;
  target_ip_address = 0;
}

unfoldable pub supported : ArpMessage → Bool
supported a =
    a.hardware_type == type_ethernet
    && (a.protocol_type == type_ipv4
        && (a.hardware_address_size == 6
            && (a.protocol_address_size == 4
                && (a.opcode == opcode_request || a.opcode == opcode_reply))))

-- The fields that `parse` reads first.
unfoldable pub parse_kind : ArpMessage → NetParser → ArpMessage × NetParser
parse_kind old p0 =
    let (hardware_type, p1) = u16 p0 in
    let (protocol_type, p2) = u16 p1 in
    let (hardware_address_size, p3) = u8 p2 in
    let (protocol_address_size, p4) = u8 p3 in
    let (opcode, p) = u16 p4 in
    (
      record old {
        hardware_type = hardware_type;
        protocol_type = protocol_type;
        hardware_address_size = hardware_address_size;
        protocol_address_size = protocol_address_size;
        opcode = opcode;
      },
      p,
    )

-- The addresses, read once the kind of the message is supported.
unfoldable pub parse_addresses : ArpMessage → NetParser → ArpMessage × NetParser
parse_addresses a p0 =
    let (sender_ethernet, p1) = parse_many 6 p0 in
    let (sender_ip, p2) = u32 p1 in
    let (target_ethernet, p3) = parse_many 6 p2 in
    let (target_ip, p) = u32 p3 in
    (
      record a {
        sender_ethernet_address = sender_ethernet;
        sender_ip_address = sender_ip;
        target_ethernet_address = target_ethernet;
        target_ip_address = target_ip;
      },
      p,
    )

unfoldable pub parse : ArpMessage → List ℕ → ArpMessage × ParseResult
parse old buffer =
    let (kind, p1) = parse_kind old (Parser.new buffer) in
    let (whole, p2) = parse_addresses kind p1 in
    if ltb (length buffer) message_length
    then (old, ParseResult.packet_too_short)
    else if not (supported kind)
    then (kind, ParseResult.unsupported)
    else (whole, p2.result)

unfoldable pub bytes_of : ArpMessage → List ℕ
bytes_of a =
    put_u16 a.hardware_type
    ++ (put_u16 a.protocol_type
        ++ (put_u8 a.hardware_address_size
            ++ (put_u8 a.protocol_address_size
                ++ (put_u16 a.opcode
                    ++ (put_many a.sender_ethernet_address
                        ++ (put_u32 a.sender_ip_address
                            ++ (put_many a.target_ethernet_address
                                ++ put_u32 a.target_ip_address)))))))

unfoldable pub serialize : ArpMessage → Result (List ℕ)
serialize a = if not (supported a) then throw runtime_error else ok (bytes_of a)
