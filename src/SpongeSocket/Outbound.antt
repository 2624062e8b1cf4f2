-- ===== src/SpongeSocket/Outbound.antt =====
-- Rule 2 of libsponge/tcp_helpers/tcp_sponge_socket.cc: the bytes of the application reach the sender.
use cs144_me.Prelude.{
  ℕ, ◌+◌, ◌-◌, ◌^◌, ◌≤◌, ◌<◌, ◌≡◌, refl, ap, sym, ◌∙◌, Bool, false, Option, some, min, List, [],
  ◌++◌, length, arith,
}
use mathlib.Core.Path.{subst}
use cs144_me.Prelude.Result.{ok}
use cs144_me.ByteStream
use cs144_me.ByteStream.{ByteStream, remaining_capacity}
use cs144_me.ByteStream.Inv.{IsValid, write_fits, remaining_capacity_lem}
use cs144_me.Wrapping.{WrappingInt32}
use cs144_me.Reassembler.Slice.{slice, length-slice}
use cs144_me.FileDescriptor
use cs144_me.FileDescriptor.{FileDescriptor, mark_eof, buffer_size, register_read}
use cs144_me.Sender.{TcpSender, fill_window}
use cs144_me.Connection
use cs144_me.Connection.{TcpConnection, seg_2_seg, remaining_outbound_capacity}
use cs144_me.Adapter.{FdAdapter}
use cs144_me.Channel.{offer}
use cs144_me.Channel.Filling.{Sends, requeued-Sends}
use cs144_me.Channel.Probing.{fill_window-Sends}
use cs144_me.Channel.Sending.{offer-Sends}
use cs144_me.SpongeSocket.{TcpSpongeSocket, AdapterCalls, on_outbound}

offer_same :
    (src : ℕ → ℕ) (s : TcpSender) (count : ℕ)
    → s.stream.end ≡ false
    → record s { stream = (ByteStream.write s.stream (slice src s.stream.written count)).1 }
      ≡ offer src s count
unfolding ByteStream.input_ended
offer_same src s count h = ground arith

-- What Connection.write comes to, from what its steps give.
write_steps :
    (c : TcpConnection) (bytes : List ℕ) (count : ℕ) (s s' : TcpSender)
    → record (c.sender) { stream = (ByteStream.write c.sender.stream bytes).1 } ≡ s
    → (ByteStream.write c.sender.stream bytes).0 ≡ count
    → fill_window s ≡ ok s'
    → Connection.write c bytes ≡ ok (count, seg_2_seg (record c { sender = s' }))
unfolding Connection.write
write_steps c bytes count s s' e n q = rw (e, q, n) refl

capacity_lem :
    (c : TcpConnection)
    → IsValid c.sender.stream
    → remaining_outbound_capacity c ≡ c.sender.stream.capacity - length c.sender.stream.buffer
unfolding remaining_outbound_capacity
capacity_lem c v = remaining_capacity_lem v

-- A pipe that holds the `held` bytes of the stream from `w` on. Asked for some bytes it gives some of
-- the next ones, as many as it likes, but no more than it is asked for or holds.
pub record IsPipe (src : ℕ → ℕ) (w held : ℕ) (kernel : ℕ → Option (List ℕ)) : Type 0 where
  pub given : ℕ → ℕ
  pub answers : (n : ℕ) → kernel n ≡ some (slice src w (given n))
  pub asked : (n : ℕ) → given n ≤ n
  pub within : (n : ℕ) → given n ≤ held
  pub some_bytes : (n : ℕ) → 0 < n → 0 < given n

read_some :
    {src : ℕ → ℕ} {w held : ℕ} (kernel : ℕ → Option (List ℕ)) (d : FileDescriptor) (limit : ℕ)
    → (pipe : IsPipe src w held kernel) → 0 < limit
    → FileDescriptor.read kernel d limit
      ≡ ok (slice src w (pipe.given (min buffer_size limit)), register_read d)
unfolding FileDescriptor.read FileDescriptor.read_answer
read_some {src} {w} kernel d limit pipe h =
    let n : ℕ = min buffer_size limit in
    rw (pipe.answers n) (
      ground (
        arith,
        h,
        pipe.asked n,
        pipe.some_bytes n (omega (arith, h)),
        length-slice src w (pipe.given n),
      ))

-- A connection takes bytes that fit, without an exception, and its sender goes on as it should.
write-Sends :
    {src : ℕ → ℕ} {isn : WrappingInt32} {w : ℕ} {e : Bool} {edge held : ℕ} (c : TcpConnection)
    (count : ℕ)
    → Sends src isn w e edge held c.sender
    → c.sender.stream.end ≡ false
    → length c.sender.stream.buffer + count ≤ c.sender.stream.capacity
    → w + count < 2 ^ 31
    → edge < 2 ^ 61
    → (c' : TcpConnection) × (Connection.write c (slice src w count) ≡ ok (count, c'))
      × Sends src isn (w + count) e edge held c'.sender
unfolding seg_2_seg
write-Sends {src} {isn} {w} {e} {edge} {held} c count v o h k b =
    let (w', l, later, q, f) = offer-Sends count k v in
    let (s', r, u) = fill_window-Sends q b in
    (
      seg_2_seg (record c { sender = s' }),
      ap (λ n. Connection.write c (slice src n count)) (sym v.written_is)
          ∙ write_steps c (slice src c.sender.stream.written count) count _ s'
              (offer_same src c.sender count o) (ap (λ x. x.0) fits ∙ size) r,
      subst (λ n. Sends src isn n e edge held (record s' { segments_out = [] })) (f o h)
          (requeued-Sends [] s'.time_passed s'.rto s'.recount s'.probing u tt u.flow),
    )
  where
    size : length (slice src c.sender.stream.written count) ≡ count
    size = length-slice src c.sender.stream.written count

    fits : ByteStream.write c.sender.stream (slice src c.sender.stream.written count) ≡ (
      length (slice src c.sender.stream.written count),
      record (c.sender.stream) {
        buffer = c.sender.stream.buffer ++ slice src c.sender.stream.written count;
        written = c.sender.stream.written + length (slice src c.sender.stream.written count);
      },
    )
    fits =
        write_fits (slice src c.sender.stream.written count) v.inv.stream (omega (arith, size))
          (omega (arith, size, v.written_is))

module _ {A P : Type 0} (adapter : FdAdapter A P) (calls : AdapterCalls P) where
  -- Take a socket whose sender has cut its stream into segments as it should (its window's edge below
  -- 2 ^ 61, its first number not acknowledged at most `held`), with neither the stream nor the pipe
  -- ended, in whose connection there is room, and a pipe that holds some next bytes of the stream, in
  -- all less than 2 ^ 31, and that gives as many of them as it likes, but no more than a read asks
  -- for. Rule 2 throws nothing: the connection accepts every byte that the pipe gave. These are at
  -- least one, at most a megabyte, and at most what the connection has room for; then the sender has
  -- that stream, longer by those bytes.
  pub on_outbound_lem :
      {src : ℕ → ℕ} {isn : WrappingInt32} {w avail : ℕ} {e : Bool} {edge held : ℕ}
      (s : TcpSpongeSocket A P) (kernel : ℕ → Option (List ℕ))
      → Sends src isn w e edge held s.tcp.sender
      → s.tcp.sender.stream.end ≡ false
      → s.thread_data.eof ≡ false
      → 0 < remaining_outbound_capacity s.tcp
      → IsPipe src w avail kernel
      → w + avail < 2 ^ 31
      → edge < 2 ^ 61
      → (s' : TcpSpongeSocket A P) × (count : ℕ) × (on_outbound adapter calls kernel s ≡ ok s')
        × Sends src isn (w + count) e edge held s'.tcp.sender
        × (0 < count)
        × (count ≤ buffer_size)
        × (count ≤ remaining_outbound_capacity s.tcp)
  unfolding on_outbound register_read
  on_outbound_lem {src} {w = w} s kernel v o live p pipe k b =
      let n : ℕ = min buffer_size (remaining_outbound_capacity s.tcp) in
      let count : ℕ = pipe.given n in
      let fits : count ≤ n = pipe.asked n in
      let room = capacity_lem s.tcp v.inv.stream in
      let (c', q, u) =
        write-Sends s.tcp count v o (omega (arith, room, fits)) (omega (arith, k, pipe.within n))
          b in
      (
        record s { thread_data = register_read s.thread_data; tcp = c' },
        count,
        rw (read_some kernel s.thread_data (remaining_outbound_capacity s.tcp) pipe p, q)
            (ground (arith, live, length-slice src w count)),
        u,
        pipe.some_bytes n (omega (arith, p)),
        omega (arith, fits),
        omega (arith, fits),
      )
