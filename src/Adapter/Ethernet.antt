-- ===== src/Adapter/Ethernet.antt =====
-- TCPOverIPv4OverEthernetAdapter of libsponge/tcp_helpers/tuntap_adapter.hh and tuntap_adapter.cc. The
-- TAP device gives and takes the bytes of Ethernet frames.
use cs144_me.Prelude.{ℕ, Option, none, some, List, [], ◌∷◌, replicate}
use cs144_me.Prelude.Result.{Result, ok, ◌>>=◌}
use cs144_me.Header.Tcp.{TcpSegment}
use cs144_me.Header.Ipv4.{Ipv4Datagram}
use cs144_me.Header.Ethernet.{EthernetAddress, EthernetFrame, parse_frame, serialize_frame}
use cs144_me.Interface
use cs144_me.Interface.{NetworkInterface, if_parsed, recv_frame, send_datagram}
use cs144_me.Adapter.{Address, FdAdapterBase, FdAdapter, new_base, set_listening}
use cs144_me.Adapter.OverIp.{wrap_tcp_in_ip}
use cs144_me.Adapter.Tun.{unwrap_some}

pub record EthernetAdapter : Type 0 where
  pub base : FdAdapterBase
  pub interface : NetworkInterface
  pub next_hop : Address

-- EthernetFrame{}: std::array leaves its six bytes as they were; 0 stands for them here.
abbrev pub empty_frame : EthernetFrame
empty_frame = record {
  header = record { dst = replicate 6 0; src = replicate 6 0; type = 0 };
  payload = [];
}

-- The constructor also writes a frame of no meaning.
unfoldable pub new : EthernetAddress → Address → Address → List (List ℕ) × EthernetAdapter
new eth_address ip_address next_hop = (
  serialize_frame empty_frame ∷ [],
  record {
    base = new_base;
    interface = Interface.new eth_address ip_address.ip;
    next_hop = next_hop;
  },
)

abbrev pub serialize_all : List EthernetFrame → List (List ℕ)
serialize_all [] = []
serialize_all (f ∷ fs) = serialize_frame f ∷ serialize_all fs

-- The loop writes the frames in order and leaves none.
unfoldable pub send_pending : EthernetAdapter → List (List ℕ) × EthernetAdapter
send_pending a = (
  serialize_all a.interface.frames_out,
  record a { interface = record (a.interface) { frames_out = [] } },
)

-- What follows once the interface has the frame.
abbrev pub finish_read :
    (ℕ → ℕ)
    → EthernetAdapter
    → Option Ipv4Datagram
    → Option TcpSegment × List (List ℕ) × EthernetAdapter
finish_read reread a d =
    let (frames, a') = send_pending a in
    let (seg, base) = unwrap_some reread a'.base d in (seg, frames, record a' { base = base })

unfoldable pub read_frame :
    (ℕ → ℕ)
    → EthernetAdapter
    → Option EthernetFrame
    → Result (Option TcpSegment × List (List ℕ) × EthernetAdapter)
read_frame reread a none = ok (none, [], a)
read_frame reread a (some f) = do
  (d, n) ← recv_frame a.interface f
  ok (finish_read reread (record a { interface = n }) d)

unfoldable pub read :
    (ℕ → ℕ)
    → EthernetAdapter
    → List ℕ
    → Result (Option TcpSegment × List (List ℕ) × EthernetAdapter)
read reread a bytes = read_frame reread a (if_parsed (parse_frame empty_frame bytes))

unfoldable pub write :
    EthernetAdapter → TcpSegment → Result (TcpSegment × List (List ℕ) × EthernetAdapter)
write a seg = do
  (sent, d) ← wrap_tcp_in_ip a.base seg
  n ← send_datagram a.interface d a.next_hop.ip
  let (frames, a') = send_pending (record a { interface = n })
  ok (sent, frames, a')

unfoldable pub tick : EthernetAdapter → ℕ → List (List ℕ) × EthernetAdapter
tick a ms = send_pending (record a { interface = Interface.tick a.interface ms })

abbrev pub ethernet_adapter : (ℕ → ℕ) → FdAdapter EthernetAdapter (List ℕ)
ethernet_adapter reread = record {
  config = λ a. a.base.cfg;
  set_config = λ a cfg. record a { base = record (a.base) { cfg = cfg } };
  read = read reread;
  write = write;
  set_listening = λ a l. record a { base = set_listening a.base l };
  tick = tick;
}
