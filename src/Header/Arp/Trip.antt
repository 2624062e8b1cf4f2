-- ===== src/Header/Arp/Trip.antt =====
-- ARPMessage::parse on what serialize of libsponge/tcp_helpers/arp_message.cc writes.
use cs144_me.Prelude.{
  ℕ, ◌%◌, ◌^◌, ◌<◌, ◌≡◌, refl, false, ap, sym, ◌∙◌, true, List, [], ◌++◌, length, ltb, arith,
  append-nil, length-append,
}
use cs144_me.Prelude.Result.{ok}
use cs144_me.Parser
use cs144_me.Parser.{
  ParseResult, NetParser, u8, u16, u32, put_u8, put_u16, put_u32, parse_many, put_many,
}
use cs144_me.Parser.Laws.{u8-put, u16-put, u32-put}
use cs144_me.Header.Ethernet.Trip.{IsAddress, parse_address, length-put_many}
use cs144_me.Header.Arp.{
  ArpMessage, supported, parse_kind, parse_addresses, parse, bytes_of, serialize, message_length,
}

-- The fields hold values of their types.
pub record IsWord (a : ArpMessage) : Type 0 where
  pub sender_ethernet : IsAddress a.sender_ethernet_address
  pub target_ethernet : IsAddress a.target_ethernet_address
  pub sender_ip : a.sender_ip_address < 2 ^ 32
  pub target_ip : a.target_ip_address < 2 ^ 32

-- The kinds that are supported fit their fields.
pub record IsKind (a : ArpMessage) : Type 0 where
  pub hardware : a.hardware_type < 2 ^ 16
  pub protocol : a.protocol_type < 2 ^ 16
  pub hardware_size : a.hardware_address_size < 256
  pub protocol_size : a.protocol_address_size < 256
  pub opcode : a.opcode < 2 ^ 16

supported-IsKind : (a : ArpMessage) → supported a ≡ true → IsKind a
unfolding supported
supported-IsKind a h = ground arith

u32-last : (v : ℕ) → u32 (Parser.new (put_u32 v)) ≡ (v % 2 ^ 32, Parser.new [])
u32-last v = ap (λ l. u32 (Parser.new l)) (sym (append-nil (put_u32 v))) ∙ u32-put v []

-- The addresses on the wire.
abbrev addresses : ArpMessage → List ℕ
addresses a =
    put_many a.sender_ethernet_address
    ++ (put_u32 a.sender_ip_address
        ++ (put_many a.target_ethernet_address ++ put_u32 a.target_ip_address))

parse_addresses_lem :
    (old a : ArpMessage)
    → IsWord a
    → parse_addresses old (Parser.new (addresses a)) ≡ (
      record old {
        sender_ethernet_address = a.sender_ethernet_address;
        sender_ip_address = a.sender_ip_address;
        target_ethernet_address = a.target_ethernet_address;
        target_ip_address = a.target_ip_address;
      },
      Parser.new [],
    )
unfolding parse_addresses
parse_addresses_lem old a v =
    rw
      (
        parse_address a.sender_ethernet_address
            (put_u32 a.sender_ip_address
              ++ (put_many a.target_ethernet_address ++ put_u32 a.target_ip_address))
            v.sender_ethernet,
        u32-put a.sender_ip_address
            (put_many a.target_ethernet_address ++ put_u32 a.target_ip_address),
        parse_address a.target_ethernet_address (put_u32 a.target_ip_address) v.target_ethernet,
        u32-last a.target_ip_address,
      )
      (ground arith)

-- The object once the kind is read.
abbrev kind_of : ArpMessage → ArpMessage → ArpMessage
kind_of old a = record old {
  hardware_type = a.hardware_type;
  protocol_type = a.protocol_type;
  hardware_address_size = a.hardware_address_size;
  protocol_address_size = a.protocol_address_size;
  opcode = a.opcode;
}

supported-kind_of : (old a : ArpMessage) → supported a ≡ true → supported (kind_of old a) ≡ true
unfolding supported
supported-kind_of old a h = h

parse_kind_lem :
    (old a : ArpMessage)
    → IsKind a
    → parse_kind old (Parser.new (bytes_of a)) ≡ (kind_of old a, Parser.new (addresses a))
unfolding parse_kind bytes_of
parse_kind_lem old a k = simp (u16-put, u8-put) (ground arith)

long_enough : (a : ArpMessage) → IsWord a → ltb (length (bytes_of a)) message_length ≡ false
unfolding bytes_of put_u16 put_u8 put_u32
long_enough a v = ground (
  arith,
  length-append (put_many a.sender_ethernet_address) (
      put_u32 a.sender_ip_address
      ++ (put_many a.target_ethernet_address ++ put_u32 a.target_ip_address)),
  length-append (put_many a.target_ethernet_address) (put_u32 a.target_ip_address),
  length-put_many a.sender_ethernet_address,
  length-put_many a.target_ethernet_address,
  v.sender_ethernet.1,
  v.target_ethernet.1,
)

-- A message of a supported kind, with addresses of their sizes, is written, and read back from what
-- it is written to with no error.
pub parse-serialize_message :
    (old a : ArpMessage)
    → supported a ≡ true
    → IsWord a
    → (s : List ℕ) × (serialize a ≡ ok s) × (parse old s ≡ (a, ParseResult.no_error))
unfolding serialize parse Parser.new
parse-serialize_message old a h v = (
  bytes_of a,
  rw h refl,
  rw
      (
        long_enough a v,
        parse_kind_lem old a (supported-IsKind a h),
        parse_addresses_lem (kind_of old a) a v,
        supported-kind_of old a h,
      )
      refl,
)
