-- ===== src/Tests/Sockets.antt =====
-- Buffers, descriptors, adapters and sockets of libsponge at concrete inputs.
use cs144_me.Prelude.{
  ℕ, ◌+◌, ◌^◌, ◌≤◌, ◌<◌, ◌≡◌, min, refl, inl, true, false, Option, none, some, List, [], ◌∷◌, ◌++◌,
  length, ◌==◌, replicate, arith,
}
use cs144_me.Prelude.Result.{ok, throw, runtime_error}
use cs144_me.Prelude.Assoc.{leaf, entry, lookup}
use cs144_me.Buffer.BufferList
use cs144_me.Buffer.BufferList.{BufferList}
use cs144_me.Buffer.BufferViewList
use cs144_me.Buffer.BufferViewList.{BufferViewList, of_list}
use cs144_me.Buffer.Laws.{AllValid, Cut, views_of, remove_prefix-concatenate, remove_prefix-of_list}
use cs144_me.FileDescriptor
use cs144_me.FileDescriptor.{FileDescriptor, buffer_size, open_descriptor, register_read}
use cs144_me.FileDescriptor.Laws.{IsTaking, text, write_lem}
use cs144_me.ByteStream
use cs144_me.ByteStream.{ByteStream}
use cs144_me.Reassembler.Slice.{slice}
use cs144_me.Sender
use cs144_me.Sender.{TcpSender}
use cs144_me.Connection
use cs144_me.Connection.{TcpConfig, TcpConnection, remaining_outbound_capacity}
use cs144_me.Header.Tcp.{TcpSegment, empty_header}
use cs144_me.Header.Ipv4
use cs144_me.Header.Ipv4.{Ipv4Datagram, empty_datagram}
use cs144_me.Adapter.{Address, FdAdapterBase, default_config, set_ports}
use cs144_me.Adapter.OverIp.{unwrap_tcp_in_ip}
use cs144_me.Adapter.Udp.{UdpDatagram, udp_adapter}
use cs144_me.Adapter.Tun
use cs144_me.Adapter.Ethernet
use cs144_me.Adapter.Ethernet.{EthernetAdapter}
use cs144_me.Adapter.Filter.{Filtered, unwrap-Filtered}
use cs144_me.Adapter.Trip.{IsAddress, IsSendable, arrives, mirror, read-write}
use cs144_me.Adapter.Frames.{read-write_frame}
use cs144_me.EventLoop.{serve}
use cs144_me.Channel.Carry.{All}
use cs144_me.Channel.Filling.{Sends}
use cs144_me.Channel.Sending.{new-Sends}
use cs144_me.SpongeSocket.{
  TcpSpongeSocket, AdapterCalls, on_inbound, on_outbound, inbound_stream, set_inbound,
}
use cs144_me.SpongeSocket.Rules.{Answers, rules}
use cs144_me.SpongeSocket.Inbound.{on_inbound_lem}
use cs144_me.SpongeSocket.Busy.{never_busy}
use cs144_me.SpongeSocket.Start.{connect, is_connecting, connect_lem}
use cs144_me.Connection.Open.{syn_segment}
use cs144_me.SpongeSocket.Outbound.{IsPipe, on_outbound_lem}

abbrev pieces : BufferList
pieces =
    record { storage = some (9 ∷ 1 ∷ 2 ∷ []); starting_offset = 1 }
    ∷ record { storage = some (3 ∷ 4 ∷ []); starting_offset = 0 }
    ∷ []

pieces-AllValid : AllValid pieces
pieces-AllValid = ((omega arith, omega arith), ((omega arith, omega arith), tt))

remove_prefix-concatenate_example : Cut pieces 3 (BufferList.remove_prefix pieces 3)
remove_prefix-concatenate_example = remove_prefix-concatenate pieces 3 pieces-AllValid

remove_prefix-of_list_example :
    BufferViewList.remove_prefix (of_list pieces) 3 ≡ views_of (BufferList.remove_prefix pieces 3)
remove_prefix-of_list_example = remove_prefix-of_list pieces 3 pieces-AllValid

-- A kernel that takes two bytes at a time.
abbrev two_at_once : ℕ → ℕ → Option ℕ
two_at_once i m = some (min 2 m)

two_at_once-IsTaking : IsTaking two_at_once
two_at_once-IsTaking = record {
  answer = λ i m. min 2 m;
  answers = λ i m. refl;
  most = λ i m. omega arith;
  least = λ i m h. omega arith;
}

abbrev views : BufferViewList
views = (1 ∷ 2 ∷ 3 ∷ []) ∷ (4 ∷ []) ∷ []

views_small : length (text views) < 2 ^ 31
unfolding BufferViewList.as_iovecs
views_small = omega arith

write_lem_example :
    (d : FileDescriptor) × (FileDescriptor.write two_at_once open_descriptor views true
      ≡ ok (record { total = length (text views); descriptor = d; taken = text views }))
write_lem_example = write_lem two_at_once open_descriptor views two_at_once-IsTaking views_small

abbrev here : Address
here = record { ip = 1; port = 10 }

abbrev there : Address
there = record { ip = 2; port = 20 }

here-IsAddress : IsAddress here
here-IsAddress = omega arith

there-IsAddress : IsAddress there
there-IsAddress = omega arith

abbrev base_from : Address → Address → FdAdapterBase
base_from source destination = record {
  cfg = record default_config { source = source; destination = destination };
  listen = false;
}

abbrev segment : TcpSegment
segment = record { header = record empty_header { seqno = 5; syn = true }; payload = 8 ∷ 9 ∷ [] }

segment-IsSendable : IsSendable segment
segment-IsSendable = record {
  bytes = omega arith;
  word = omega arith;
  options = omega arith;
  size = omega arith;
}

abbrev reread : ℕ → ℕ
reread x = x

read-write_example :
    (bytes : List ℕ) × (Tun.write (base_from here there) segment
      ≡ ok (set_ports (base_from here there) segment, bytes))
    × (Tun.read reread (base_from there here) bytes ≡ (
      some (arrives (base_from here there) segment),
      mirror (base_from here there) (base_from there here),
    ))
read-write_example =
    read-write reread (base_from here there) (base_from there here) segment (λ x h. refl)
      here-IsAddress there-IsAddress segment-IsSendable (inl (refl, refl, refl))

abbrev datagram : Ipv4Datagram
datagram = record empty_datagram { header = record Ipv4.empty_header { src = 2; dst = 1 } }

unwrap-Filtered_example :
    Filtered
      (base_from here there)
      datagram
      (unwrap_tcp_in_ip reread (base_from here there) datagram)
unwrap-Filtered_example = unwrap-Filtered reread (base_from here there) datagram refl refl

abbrev mac_here : List ℕ
mac_here = replicate 6 2

abbrev mac_there : List ℕ
mac_there = replicate 6 4

-- An adapter on an Ethernet that knows the address of its next hop.
abbrev ethernet_from : Address → Address → List ℕ → List ℕ → EthernetAdapter
ethernet_from source destination mac next_mac = record {
  base = base_from source destination;
  interface = record {
    ethernet_address = mac;
    ip_address = source.ip;
    frames_out = [];
    since_last_sent = leaf;
    cache_time = leaf;
    cache = entry destination.ip next_mac leaf;
    datagrams = leaf;
  };
  next_hop = destination;
}

abbrev left : EthernetAdapter
left = ethernet_from here there mac_here mac_there

abbrev right : EthernetAdapter
right = ethernet_from there here mac_there mac_here

left_knows : lookup 2 left.interface.cache ≡ some mac_there
unfolding lookup
left_knows = refl

read-write_frame_example :
    (bytes : List ℕ) × (Ethernet.write left segment
      ≡ ok (set_ports left.base segment, bytes ∷ [], left))
    × (Ethernet.read reread right bytes
        ≡ ok (
          some (arrives left.base segment),
          [],
          record right { base = mirror left.base right.base },
        ))
read-write_frame_example =
    read-write_frame reread left right segment (λ x h. refl) here-IsAddress there-IsAddress
      segment-IsSendable (inl (refl, refl, refl)) refl refl left_knows (omega arith, refl)
      (omega arith, refl)

abbrev config : TcpConfig
config = record { rt_timeout = 1000; recv_capacity = 10; send_capacity = 10; isn = 7 }

-- The calls on a UDP socket that are counted.
abbrev calls : AdapterCalls UdpDatagram
calls = record { after_read = λ p d. register_read d; after_write = λ l d. d }

abbrev socket_with : TcpConnection → TcpSpongeSocket FdAdapterBase UdpDatagram
socket_with c = record {
  thread_data = open_descriptor;
  datagram_adapter = base_from here there;
  adapter_fd = open_descriptor;
  tcp = c;
  inbound_shutdown = false;
  outbound_shutdown = false;
  fully_acked = false;
  sent = [];
  delivered = [];
}

-- A stream with three bytes to read.
abbrev inbound : ByteStream
inbound = record {
  capacity = 10;
  end = false;
  total_read = 0;
  written = 3;
  buffer = 5 ∷ 6 ∷ 7 ∷ [];
  error_flag = false;
}

abbrev reading_socket : TcpSpongeSocket FdAdapterBase UdpDatagram
reading_socket = socket_with (set_inbound (Connection.new config) inbound)

on_inbound_lem_example :
    (s' : TcpSpongeSocket FdAdapterBase UdpDatagram) × (on_inbound udp_adapter calls two_at_once
        reading_socket
      ≡ ok s')
    × (s'.delivered ++ (inbound_stream s'.tcp).buffer
        ≡ reading_socket.delivered ++ (inbound_stream reading_socket.tcp).buffer)
    × (0 < length (inbound_stream reading_socket.tcp).buffer
        → length (inbound_stream s'.tcp).buffer < length (inbound_stream reading_socket.tcp).buffer)
on_inbound_lem_example =
    on_inbound_lem udp_adapter calls reading_socket two_at_once two_at_once-IsTaking
      (record { small = omega arith; fits = omega arith; counted = refl; no_wrap = omega arith })

abbrev answers : Answers UdpDatagram
answers = record {
  packet = record { address = there; payload = [] };
  outbound = λ n. some (1 ∷ []);
  kernel = two_at_once;
}

reads_count : (d : FileDescriptor) → (d.read_count == (register_read d).read_count) ≡ false
unfolding register_read
reads_count d = ground arith

never_busy_example :
    All (λ r. serve reading_socket r ≡ r.callback reading_socket) (rules udp_adapter calls answers)
never_busy_example =
    never_busy udp_adapter calls answers reading_socket (omega arith) (omega arith)
      (λ p d. reads_count d) (λ l d. refl)

abbrev bytes_from : ℕ → ℕ
bytes_from i = i

abbrev writing_socket : TcpSpongeSocket FdAdapterBase UdpDatagram
writing_socket = socket_with (record (Connection.new config) { sender = Sender.new 10 1000 7 })

writing-Sends : Sends bytes_from 7 0 false 9 0 writing_socket.tcp.sender
writing-Sends = new-Sends bytes_from 7 10 1000 9 0 (omega arith)

still_open : writing_socket.tcp.sender.stream.end ≡ false
unfolding Sender.new ByteStream.new
still_open = refl

writing-room : 0 < remaining_outbound_capacity writing_socket.tcp
unfolding Sender.new ByteStream.new remaining_outbound_capacity ByteStream.remaining_capacity
writing-room = omega arith

-- A pipe with twenty bytes, twice what the connection has room for.
abbrev pipe_of_20 : ℕ → Option (List ℕ)
pipe_of_20 n = some (slice bytes_from 0 (min n 20))

pipe_of_20-IsPipe : IsPipe bytes_from 0 20 pipe_of_20
pipe_of_20-IsPipe = record {
  given = λ n. min n 20;
  answers = λ n. refl;
  asked = λ n. omega arith;
  within = λ n. omega arith;
  some_bytes = λ n h. omega (arith, h);
}

on_outbound_lem_example :
    (s' : TcpSpongeSocket FdAdapterBase UdpDatagram) × (count : ℕ) × (on_outbound udp_adapter calls
        pipe_of_20 writing_socket
      ≡ ok s')
    × Sends bytes_from 7 (0 + count) false 9 0 s'.tcp.sender
    × (0 < count)
    × (count ≤ buffer_size)
    × (count ≤ remaining_outbound_capacity writing_socket.tcp)
on_outbound_lem_example =
    on_outbound_lem udp_adapter calls writing_socket pipe_of_20 writing-Sends still_open refl
      writing-room pipe_of_20-IsPipe (omega arith) (omega arith)

connect_lem_example :
    ((s' : TcpSpongeSocket FdAdapterBase UdpDatagram) × (connect udp_adapter none config
          default_config writing_socket
        ≡ ok s')
      × (is_connecting udp_adapter s' ≡ true)
      × (s'.tcp.segments_out ≡ syn_segment 7 ∷ [])
      × (s'.datagram_adapter
          ≡ udp_adapter.set_config writing_socket.datagram_adapter default_config))
    × ((c : TcpConnection)
        → connect udp_adapter (some c) config default_config writing_socket ≡ throw runtime_error)
connect_lem_example =
    connect_lem udp_adapter config default_config writing_socket (omega arith) (omega arith)
