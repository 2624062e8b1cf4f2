-- ===== src/Interface.antt =====
-- libsponge/network_interface.hh and network_interface.cc: the ARP cache between IP datagrams and
-- Ethernet frames. An Address is its ipv4_numeric(), and the payload of a frame its bytes in one.
pub mod Cache
pub mod Keys
pub mod Resolve
use cs144_me.Prelude.{
  ℕ, ◌+◌, Bool, true, false, not, ◌&&◌, ◌||◌, Option, none, some, List, [], ◌∷◌, ◌++◌, ltb, leb,
  ◌==◌, if◌then◌else◌,
}
use cs144_me.Prelude.Word.{add_size}
use cs144_me.Prelude.Result.{Result, ok, ◌>>=◌}
use cs144_me.Prelude.Assoc.{Assoc, leaf, entry, lookup, insert, erase}
use cs144_me.Parser.{ParseResult}
use cs144_me.Header.Ethernet.{
  EthernetAddress, EthernetFrame, ethernet_broadcast, type_ipv4, type_arp,
}
use cs144_me.Header.Ipv4
use cs144_me.Header.Ipv4.{Ipv4Datagram, empty_datagram, serialize_datagram, parse_datagram}
use cs144_me.Header.Arp
use cs144_me.Header.Arp.{ArpMessage, empty_message, opcode_request, opcode_reply}

pub record NetworkInterface : Type 0 where
  pub ethernet_address : EthernetAddress
  pub ip_address : ℕ
  pub frames_out : List EthernetFrame
  pub since_last_sent : Assoc ℕ
  pub cache_time : Assoc ℕ
  pub cache : Assoc EthernetAddress
  pub datagrams : Assoc (List Ipv4Datagram)

unfoldable pub new : EthernetAddress → ℕ → NetworkInterface
new ethernet_address ip_address = record {
  ethernet_address = ethernet_address;
  ip_address = ip_address;
  frames_out = [];
  since_last_sent = leaf;
  cache_time = leaf;
  cache = leaf;
  datagrams = leaf;
}

-- operator== of two arrays of bytes.
unfoldable pub same_address : EthernetAddress → EthernetAddress → Bool
same_address [] [] = true
same_address [] (b ∷ bs) = false
same_address (a ∷ as') [] = false
same_address (a ∷ as') (b ∷ bs) = a == b && same_address as' bs

-- The limits in milliseconds: of a pending request, and of a cached address.
abbrev pub request_timeout : ℕ
request_timeout = 5000

abbrev pub cache_timeout : ℕ
cache_timeout = 30000

abbrev pub frame_to : NetworkInterface → EthernetAddress → ℕ → List ℕ → EthernetFrame
frame_to n dst type payload = record {
  header = record { dst = dst; src = n.ethernet_address; type = type };
  payload = payload;
}

abbrev pub push_frame : NetworkInterface → EthernetFrame → NetworkInterface
push_frame n f = record n { frames_out = n.frames_out ++ (f ∷ []) }

-- A datagram in a frame to an address that is known.
unfoldable pub send_to : NetworkInterface → EthernetAddress → Ipv4Datagram → Result NetworkInterface
send_to n dst dgram = do
  payload ← serialize_datagram dgram
  ok (push_frame n (frame_to n dst type_ipv4 payload))

-- May a request go out: was none sent, or is the last one old?
abbrev pub may_request : Option ℕ → Bool
may_request none = true
may_request (some t) = leb request_timeout t

abbrev pub waiting : Option (List Ipv4Datagram) → List Ipv4Datagram
waiting none = []
waiting (some l) = l

-- The ARP request that asks for the address of an IP.
abbrev pub request_for : NetworkInterface → ℕ → ArpMessage
request_for n ip = record empty_message {
  opcode = opcode_request;
  sender_ip_address = n.ip_address;
  sender_ethernet_address = n.ethernet_address;
  target_ip_address = ip;
}

-- Broadcasts a request, and puts the datagram in front of those that wait for the answer.
unfoldable pub request_address : NetworkInterface → Ipv4Datagram → ℕ → Result NetworkInterface
request_address n dgram ip = do
  payload ← Arp.serialize (request_for n ip)
  ok (
      push_frame
        (record n {
          since_last_sent = insert ip 0 n.since_last_sent;
          datagrams = insert ip (dgram ∷ waiting (lookup ip n.datagrams)) n.datagrams;
        })
        (frame_to n ethernet_broadcast type_arp payload))

-- The cases of send_datagram by what the cache holds. With a request pending nothing happens.
unfoldable pub send_by_cache :
    NetworkInterface → Ipv4Datagram → ℕ → Option EthernetAddress → Result NetworkInterface
send_by_cache n dgram ip (some dst) = send_to n dst dgram
send_by_cache n dgram ip none =
    if may_request (lookup ip n.since_last_sent) then request_address n dgram ip else ok n

unfoldable pub send_datagram : NetworkInterface → Ipv4Datagram → ℕ → Result NetworkInterface
send_datagram n dgram next_hop = send_by_cache n dgram next_hop (lookup next_hop n.cache)

-- The loop that sends the waiting datagrams.
unfoldable pub send_all :
    NetworkInterface → EthernetAddress → List Ipv4Datagram → Result NetworkInterface
send_all n dst [] = ok n
send_all n dst (d ∷ ds) = send_to n dst d >>= λ n'. send_all n' dst ds

-- The address of the sender is learnt, whatever the kind of the message.
unfoldable pub learn : NetworkInterface → ArpMessage → NetworkInterface
learn n am = record n {
  cache = insert am.sender_ip_address am.sender_ethernet_address n.cache;
  cache_time = insert am.sender_ip_address 0 n.cache_time;
}

unfoldable pub send_waiting :
    NetworkInterface → ArpMessage → Option (List Ipv4Datagram) → Result NetworkInterface
send_waiting n am none = ok n
send_waiting n am (some ds) = do
  n' ← send_all n am.sender_ethernet_address ds
  ok (record n' { datagrams = erase am.sender_ip_address n'.datagrams })

abbrev pub reply_to : NetworkInterface → ArpMessage → ArpMessage
reply_to n am = record empty_message {
  opcode = opcode_reply;
  sender_ip_address = n.ip_address;
  sender_ethernet_address = n.ethernet_address;
  target_ip_address = am.sender_ip_address;
  target_ethernet_address = am.sender_ethernet_address;
}

-- A request for the interface's own address is answered.
unfoldable pub reply_if_asked : NetworkInterface → ArpMessage → Result NetworkInterface
reply_if_asked n am =
    if am.opcode == opcode_request && am.target_ip_address == n.ip_address
    then (do
      payload ← Arp.serialize (reply_to n am)
      ok (push_frame n (frame_to n am.sender_ethernet_address type_arp payload)))
    else ok n

unfoldable pub recv_arp : NetworkInterface → ArpMessage → Result NetworkInterface
recv_arp n am = do
  let n1 = learn n am
  n2 ← send_waiting n1 am (lookup am.sender_ip_address n1.datagrams)
  reply_if_asked n2 am

-- What a parse without error gives.
abbrev pub if_parsed {ℓ} : {A : Type ℓ} → A × ParseResult → Option A
if_parsed (a, ParseResult.no_error) = some a
if_parsed (a, _) = none

unfoldable pub recv_payload :
    NetworkInterface → Option ArpMessage → Result (Option Ipv4Datagram × NetworkInterface)
recv_payload n none = ok (none, n)
recv_payload n (some am) = do n' ← recv_arp n am; ok (none, n')

unfoldable pub recv_frame :
    NetworkInterface → EthernetFrame → Result (Option Ipv4Datagram × NetworkInterface)
recv_frame n f =
    if not
      (same_address f.header.dst ethernet_broadcast || same_address f.header.dst n.ethernet_address)
    then ok (none, n)
    else if f.header.type == type_ipv4
    then ok (if_parsed (parse_datagram empty_datagram f.payload), n)
    else recv_payload n (if_parsed (Arp.parse empty_message f.payload))

-- A loop of tick over a map of times: the entries that are not too old, with their new times.
unfoldable pub age : ℕ → ℕ → Assoc ℕ → Assoc ℕ
age limit ms leaf = leaf
age limit ms (entry ip t m) =
    if leb limit (add_size t ms) then age limit ms m else entry ip (add_size t ms) (age limit ms m)

-- The first loop of tick: what it erases from the cache.
unfoldable pub evict : ℕ → Assoc ℕ → Assoc EthernetAddress → Assoc EthernetAddress
evict ms leaf cache = cache
evict ms (entry ip t m) cache =
    evict ms m (if leb cache_timeout (add_size t ms) then erase ip cache else cache)

unfoldable pub tick : NetworkInterface → ℕ → NetworkInterface
tick n ms = record n {
  cache = evict ms n.cache_time n.cache;
  cache_time = age cache_timeout ms n.cache_time;
  since_last_sent = age request_timeout ms n.since_last_sent;
}
