-- ===== src/Lib.antt =====
-- The TCP of libsponge: a stack from byte streams to a router, in C++.
--
-- The program and its models:
--   ByteStream: libsponge/byte_stream.cc. A bounded buffer of bytes between a writer and a reader.
--     Its int counters are 32-bit patterns.
--   Reassembler: libsponge/stream_reassembler.cc. Substrings of a stream in any order, kept in a map
--     from the last index of each piece to its bytes, here a list of pieces in increasing order; what
--     has no gap is written to a ByteStream. add_temp_cash is AddTempCash, in stages.
--   Wrapping: libsponge/wrapping_integers.cc. 32-bit sequence numbers and 64-bit absolute ones.
--   Receiver: libsponge/tcp_receiver.cc. Takes segments, gives a Reassembler their payloads, and
--     acknowledges.
--   Sender: libsponge/tcp_sender.cc. Cuts a ByteStream into segments, keeps those not acknowledged,
--     and sends them again.
--   TcpState: libsponge/tcp_helpers/tcp_state.cc. The named states of a connection. Each summary
--     string is a constructor.
--   Connection: libsponge/tcp_connection.cc. A Sender and a Receiver; seg_2_seg moves the sender's
--     segments to the connection's queue, with the receiver's acknowledgment on each.
--     Handshake carries the segments that open a connection between two of them, GiveUp is about
--     a peer that does not answer, Shutdown about the end of both streams, and Linger about TIME_WAIT.
--   Parser, Checksum, Header: libsponge/util/parser.cc, InternetChecksum of libsponge/util/util.cc,
--     and the wire formats under libsponge/tcp_helpers. A buffer is the list of its bytes.
--   Channel: a Sender and a Receiver with a network between them, which delivers any of what was ever
--     sent, in any order and number. It models no code of its own: its events call the operations of
--     the two ends.
--   Buffer: libsponge/util/buffer.cc. Strings that give up bytes at the front, whole and in pieces.
--   Interface: libsponge/network_interface.cc. Datagrams in Ethernet frames, with ARP.
--   Router: libsponge/router.cc. Datagrams between interfaces by the longest prefix. Drain is about
--     route over all the queues.
--   Adapter: fd_adapter, tcp_over_ip, tuntap_adapter and lossy_fd_adapter of libsponge/tcp_helpers.
--     Segments in UDP payloads, IPv4 datagrams and Ethernet frames. FdAdapter is what the lossy adapter
--     and the socket ask of an adapter.
--   FileDescriptor, EventLoop: libsponge/util/file_descriptor.cc and eventloop.cc, with the kernel's
--     answers as arguments.
--   SpongeSocket: libsponge/tcp_helpers/tcp_sponge_socket.cc. The four rules between a Connection, the
--     application's pipe and an Adapter, what they are as rules of EventLoop, and connect and
--     listen_and_accept with the loop that they and the thread run (_tcp_loop), which goes on for as
--     many rounds as the system answers.
--   StreamCopy: apps/bidirectional_stream_copy.cc. Standard input to a socket and back, by four rules
--     of EventLoop over two byte streams.
--   Simulator: apps/network_simulator.cc. Hosts on cables with a Router, which carry the frames of
--     Interface, and the check that each host got what it was to get.
--
-- Conventions: a class is a record of its fields, and a method a function from the state to the new
-- one. size_t, uint64_t and the shorter types are natural numbers with their wrap-around written out
-- (Prelude.Word). A method that may throw gives a Result. std::unordered_map is an association list
-- with one entry for a key (Prelude.Assoc). Queues are lists with the oldest element first. A loop is a
-- recursion on the list that it walks, or on fuel: the loops of unwrap run at most twice, the fold of
-- the checksum at most three times, and the loop of fill_window at most once for each number of the
-- window (Sender.fill_fuel), and each gets that much fuel; the loop of
-- FileDescriptor.write takes a byte each round but the last, and gets a round more than the bytes.
--
-- The initial sequence number, which the source may take from the random device, is an argument.
--
-- Not modelled: the threads of tcp_sponge_socket.cc and its named sockets; the wrappers of
-- system calls (socket.cc, tun.cc and address.cc of libsponge/util), of which an adapter sees packets
-- and addresses as numbers; printing; the other apps, tests and
-- doctests.
pub mod Prelude
pub mod ByteStream
pub mod Wrapping
pub mod Buffer
pub mod FileDescriptor
pub mod EventLoop
pub mod Parser
pub mod Checksum
pub mod Header
pub mod Reassembler
pub mod Receiver
pub mod Sender
pub mod TcpState
pub mod Connection
pub mod Channel
pub mod Interface
pub mod Router
pub mod Simulator
pub mod Adapter
pub mod SpongeSocket
pub mod StreamCopy
pub mod Tests
