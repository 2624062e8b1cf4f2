-- ===== src/SpongeSocket.antt =====
-- TCPSpongeSocket of libsponge/tcp_helpers/tcp_sponge_socket.hh and tcp_sponge_socket.cc: the four rules
-- of its event loop, between the application's pipe, a TCPConnection and an adapter. The debugging
-- output is left out.
pub mod Rules
pub mod Start
pub mod Outbound
pub mod Inbound
pub mod Busy
pub mod Loop
use cs144_me.Prelude.{
  ℕ, ◌+◌, min, Bool, true, false, not, ◌&&◌, ◌||◌, Option, none, some, List, [], ◌∷◌, ◌++◌, length,
  ltb, ◌==◌, if◌then◌else◌,
}
use cs144_me.Prelude.Result.{Result, ok, throw, runtime_error, ◌>>=◌}
use cs144_me.ByteStream
use cs144_me.ByteStream.{ByteStream, eof, buffer_empty, peek_output, pop_output}
use cs144_me.FileDescriptor
use cs144_me.FileDescriptor.{FileDescriptor, Written, register_write}
use cs144_me.Buffer.BufferViewList.{of_view}
use cs144_me.Sender.{is_empty}
use cs144_me.Receiver.{TcpReceiver, stream_out}
use cs144_me.Reassembler.{StreamReassembler}
use cs144_me.Connection
use cs144_me.Connection.{
  TcpConnection, segment_received, end_input_stream, remaining_outbound_capacity,
}
use cs144_me.Header.Tcp.{TcpSegment}
use cs144_me.Adapter.{FdAdapter}

-- The socket of an adapter A; `sent` are the packets written, and `delivered` the bytes that the
-- application's end of the pipe got.
pub record TcpSpongeSocket (A P : Type 0) : Type 0 where
  pub thread_data : FileDescriptor
  pub datagram_adapter : A
  pub adapter_fd : FileDescriptor
  pub tcp : TcpConnection
  pub inbound_shutdown : Bool
  pub outbound_shutdown : Bool
  pub fully_acked : Bool
  pub sent : List P
  pub delivered : List ℕ

-- The system calls below an adapter, on its descriptor: one packet read, and packets written.
pub record AdapterCalls (P : Type 0) : Type 0 where
  pub after_read : P → FileDescriptor → FileDescriptor
  pub after_write : List P → FileDescriptor → FileDescriptor

abbrev pub inbound_stream : TcpConnection → ByteStream
inbound_stream c = stream_out c.receiver

abbrev pub set_inbound : TcpConnection → ByteStream → TcpConnection
set_inbound c out = record c {
  receiver = record (c.receiver) { reassembler = record (c.receiver.reassembler) { output = out } };
}

abbrev pub receive_some : TcpConnection → Option TcpSegment → Result TcpConnection
receive_some c none = ok c
receive_some c (some seg) = segment_received c seg

-- Is the inbound stream at its end, or in error?
unfoldable pub is_over : ByteStream → Bool
is_over out = eof out || ByteStream.error out

-- Has the whole stream been acknowledged?
abbrev pub is_fully_acked : FileDescriptor → TcpConnection → Bool → Bool
is_fully_acked d c before = before || (d.eof && Connection.bytes_in_flight c == 0)

module _ {A P : Type 0} (adapter : FdAdapter A P) (calls : AdapterCalls P) where
  -- Rule 1: a packet to the connection.
  unfoldable pub on_datagram : P → TcpSpongeSocket A P → Result (TcpSpongeSocket A P)
  on_datagram p s = do
    (seg, packets, a) ← adapter.read s.datagram_adapter p
    c ← receive_some s.tcp seg
    ok (record s {
      datagram_adapter = a;
      adapter_fd = calls.after_write packets (calls.after_read p s.adapter_fd);
      tcp = c;
      fully_acked = is_fully_acked s.thread_data c s.fully_acked;
      sent = s.sent ++ packets;
    })

  unfoldable pub wants_datagram : TcpSpongeSocket A P → Bool
  wants_datagram s = s.tcp.active

  -- The outbound stream ends; also what cancels rule 2.
  unfoldable pub end_outbound : TcpSpongeSocket A P → Result (TcpSpongeSocket A P)
  end_outbound s = do
    c ← end_input_stream s.tcp
    ok (record s { tcp = c; outbound_shutdown = true })

  -- Rule 2: bytes of the application to the connection, as many as it has room for.
  unfoldable pub on_outbound :
      (ℕ → Option (List ℕ)) → TcpSpongeSocket A P → Result (TcpSpongeSocket A P)
  on_outbound kernel s = do
    (bytes, d) ← FileDescriptor.read kernel s.thread_data (remaining_outbound_capacity s.tcp)
    (amount, c) ← Connection.write s.tcp bytes
    let s' = record s { thread_data = d; tcp = c }
    if not (amount == length bytes)
        then throw runtime_error
        else if d.eof
        then end_outbound s'
        else ok s'

  unfoldable pub wants_outbound : TcpSpongeSocket A P → Bool
  wants_outbound s =
      s.tcp.active && (not s.outbound_shutdown && ltb 0 (remaining_outbound_capacity s.tcp))

  -- The end of rule 3, once the pipe has taken bytes.
  abbrev pub handed_over : TcpSpongeSocket A P → Written → ByteStream → TcpSpongeSocket A P
  handed_over s w out =
      let s' : TcpSpongeSocket A P = record s {
        tcp = set_inbound s.tcp out;
        delivered = s.delivered ++ w.taken;
      } in
      if is_over out
      then record s' { thread_data = register_write w.descriptor; inbound_shutdown = true }
      else record s' { thread_data = w.descriptor }

  -- Rule 3: bytes of the connection to the application, as many as the pipe takes. The shutdown of
  -- the pipe counts as a write.
  unfoldable pub on_inbound :
      (ℕ → ℕ → Option ℕ) → TcpSpongeSocket A P → Result (TcpSpongeSocket A P)
  on_inbound kernel s = do
    let inbound = inbound_stream s.tcp
    bytes ← peek_output inbound (min 65536 (ByteStream.buffer_size inbound))
    w ← FileDescriptor.write kernel s.thread_data (of_view bytes) false
    out ← pop_output inbound w.total
    ok (handed_over s w out)

  unfoldable pub wants_inbound : TcpSpongeSocket A P → Bool
  wants_inbound s =
      let inbound : ByteStream = inbound_stream s.tcp in
      not (buffer_empty inbound) || (is_over inbound && not s.inbound_shutdown)

  -- The loop of rule 4.
  unfoldable pub write_all : List TcpSegment → TcpSpongeSocket A P → Result (TcpSpongeSocket A P)
  write_all [] s = ok (record s { tcp = record (s.tcp) { segments_out = [] } })
  write_all (seg ∷ segs) s = do
    (sent, packets, a) ← adapter.write s.datagram_adapter seg
    write_all segs (record s {
      datagram_adapter = a;
      adapter_fd = calls.after_write packets s.adapter_fd;
      sent = s.sent ++ packets;
    })

  -- Rule 4: the segments of the connection to the adapter.
  unfoldable pub on_segments : TcpSpongeSocket A P → Result (TcpSpongeSocket A P)
  on_segments s = write_all s.tcp.segments_out s

  unfoldable pub wants_segments : TcpSpongeSocket A P → Bool
  wants_segments s = not (is_empty s.tcp.segments_out)

  -- The end of a round of _tcp_loop: the time that passed.
  unfoldable pub pass : ℕ → TcpSpongeSocket A P → TcpSpongeSocket A P
  pass ms s =
      let (packets, a) = adapter.tick s.datagram_adapter ms in
      if s.tcp.active
      then record s {
        tcp = Connection.tick s.tcp ms;
        datagram_adapter = a;
        adapter_fd = calls.after_write packets s.adapter_fd;
        sent = s.sent ++ packets;
      }
      else s
