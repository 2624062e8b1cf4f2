-- ===== src/SpongeSocket/Busy.antt =====
-- The rules of libsponge/tcp_helpers/tcp_sponge_socket.cc do not make the event loop spin.
use cs144_me.Prelude.{
  ℕ, ◌^◌, ◌<◌, ◌≡◌, min, refl, ap, Bool, true, false, not, ◌&&◌, Option, List, [], ◌∷◌, length,
  ◌==◌, if◌then◌else◌, arith,
}
use cs144_me.Prelude.Word.{add_u32}
use cs144_me.Prelude.Result.{Result, ok, IfOk, IfOk-bind, IfOk-map, any_ok, if-both}
use cs144_me.ByteStream
use cs144_me.ByteStream.{ByteStream, peek_output, pop_output}
use cs144_me.FileDescriptor
use cs144_me.FileDescriptor.{FileDescriptor, Written, register_read, register_write}
use cs144_me.FileDescriptor.Laws.{write_count, read_count}
use cs144_me.Buffer.BufferViewList.{of_view}
use cs144_me.EventLoop.{Rule, service_count, serve}
use cs144_me.EventLoop.Laws.{is_busy, serve_lem}
use cs144_me.Connection
use cs144_me.Connection.{TcpConnection, end_input_stream, remaining_outbound_capacity}
use cs144_me.Header.Tcp.{TcpSegment}
use cs144_me.Adapter.{FdAdapter}
use cs144_me.Channel.Carry.{All}
use cs144_me.SpongeSocket.{
  TcpSpongeSocket, AdapterCalls, on_datagram, on_outbound, end_outbound, on_inbound, on_segments,
  wants_segments, write_all, inbound_stream, receive_some, handed_over,
}
use cs144_me.SpongeSocket.Rules.{
  Answers, rules, datagram_rule, outbound_rule, inbound_rule, segments_rule,
}

-- A rule whose descriptor was used, or that is not interested any more, is not busy.
unused : (a b : Bool) → a ≡ false → (a && b) ≡ false
unused a b h = rw h refl

uninterested : (a b : Bool) → b ≡ false → (a && b) ≡ false
uninterested true b h = h
uninterested false b h = refl

-- A count that a read or a write raises.
raised : (n : ℕ) → n < 2 ^ 32 → (n == add_u32 n 1) ≡ false
raised n h = ground arith

module _ {A P : Type 0} (adapter : FdAdapter A P) (calls : AdapterCalls P)
    (s : TcpSpongeSocket A P) where
  abbrev State : Type 0
  State = TcpSpongeSocket A P

  on_segments-IsUsed :
      (segs : List TcpSegment) (s0 : State)
      → IfOk
          (λ (s' : State). wants_segments adapter calls s' ≡ false)
          (write_all adapter calls segs s0)
  unfolding write_all wants_segments
  on_segments-IsUsed [] s0 = refl
  on_segments-IsUsed (seg ∷ segs) s0 =
      IfOk-bind (λ (x : TcpSegment × List P × A). Unit)
        (λ (s' : State). wants_segments adapter calls s' ≡ false)
        (adapter.write s0.datagram_adapter seg) _ (any_ok (adapter.write s0.datagram_adapter seg))
        (λ x u. on_segments-IsUsed segs _)

  handed_over-count :
      (w : Written) (out : ByteStream)
      → w.descriptor.write_count ≡ add_u32 s.thread_data.write_count 1
      → s.thread_data.write_count < 2 ^ 32
      → (s.thread_data.write_count == (handed_over adapter calls s w out).thread_data.write_count)
        ≡ false
  unfolding register_write
  handed_over-count w out p h = ground arith

  end_outbound-count :
      (s0 : State)
      → IfOk
          (λ (s' : State). s'.thread_data.read_count ≡ s0.thread_data.read_count)
          (end_outbound adapter calls s0)
  unfolding end_outbound
  end_outbound-count s0 =
      IfOk-bind (λ (c : TcpConnection). Unit)
        (λ (s' : State). s'.thread_data.read_count ≡ s0.thread_data.read_count)
        (end_input_stream s0.tcp) _ (any_ok (end_input_stream s0.tcp)) (λ c u. refl)

  abbrev HasWritten : State → Type 0
  HasWritten s' = (s.thread_data.write_count == s'.thread_data.write_count) ≡ false

  abbrev HasRead : State → Type 0
  HasRead s' = (s.thread_data.read_count == s'.thread_data.read_count) ≡ false

  on_inbound-count :
      (kernel : ℕ → ℕ → Option ℕ)
      → s.thread_data.write_count < 2 ^ 32
      → IfOk HasWritten (on_inbound adapter calls kernel s)
  unfolding on_inbound
  on_inbound-count kernel h =
      IfOk-bind (λ (bytes : List ℕ). Unit) HasWritten shown _ (any_ok shown)
        (λ bytes u.
          IfOk-bind
            (λ (w : Written). w.descriptor.write_count ≡ add_u32 s.thread_data.write_count 1)
            HasWritten (FileDescriptor.write kernel s.thread_data (of_view bytes) false) _
            (write_count kernel s.thread_data (of_view bytes))
            (λ w p.
              IfOk-bind (λ (out : ByteStream). Unit) HasWritten (pop_output inbound w.total) _
                (any_ok (pop_output inbound w.total)) (λ out k. handed_over-count w out p h)))
    where
      inbound : ByteStream
      inbound = inbound_stream s.tcp

      shown : Result (List ℕ)
      shown = peek_output inbound (min 65536 (ByteStream.buffer_size inbound))

  ended-count :
      (d : FileDescriptor) (s1 : State)
      → s1.thread_data ≡ d
      → d.read_count ≡ add_u32 s.thread_data.read_count 1
      → s.thread_data.read_count < 2 ^ 32
      → IfOk HasRead (if d.eof then end_outbound adapter calls s1 else ok s1)
  ended-count d s1 e p h =
      if-both (IfOk HasRead) d.eof (end_outbound adapter calls s1) (ok s1)
        (IfOk-map (λ (s' : State). s'.thread_data.read_count ≡ s1.thread_data.read_count) HasRead
          (end_outbound adapter calls s1) (end_outbound-count s1)
          (λ s' q. ground (arith, q, p, ap (λ x. x.read_count) e)))
        (ground (arith, p, ap (λ x. x.read_count) e))

  on_outbound-count :
      (answer : ℕ → Option (List ℕ))
      → s.thread_data.read_count < 2 ^ 32
      → IfOk HasRead (on_outbound adapter calls answer s)
  unfolding on_outbound
  on_outbound-count answer h =
      IfOk-bind
        (λ (x : List ℕ × FileDescriptor). x.1.read_count ≡ add_u32 s.thread_data.read_count 1)
        HasRead (FileDescriptor.read answer s.thread_data (remaining_outbound_capacity s.tcp)) _
        (read_count answer s.thread_data (remaining_outbound_capacity s.tcp))
        (λ x p.
          IfOk-bind (λ (y : ℕ × TcpConnection). Unit) HasRead (Connection.write s.tcp x.0) _
            (any_ok (Connection.write s.tcp x.0))
            (λ y u.
              if-both (IfOk HasRead) (not (y.0 == length x.0)) _ _ tt
                (ended-count x.1 (record s { thread_data = x.1; tcp = y.1 }) refl p h)))

  on_datagram-count :
      (p : P)
      → (s.adapter_fd.read_count == (calls.after_read p s.adapter_fd).read_count) ≡ false
      → ((l : List P) (d : FileDescriptor) → (calls.after_write l d).read_count ≡ d.read_count)
      → IfOk
          (λ (s' : State). (s.adapter_fd.read_count == s'.adapter_fd.read_count) ≡ false)
          (on_datagram adapter calls p s)
  unfolding on_datagram
  on_datagram-count p r w =
      IfOk-bind (λ (x : Option TcpSegment × List P × A). Unit) used
        (adapter.read s.datagram_adapter p) _ (any_ok (adapter.read s.datagram_adapter p))
        (λ x u.
          IfOk-bind (λ (c : TcpConnection). Unit) used (receive_some s.tcp x.0) _
            (any_ok (receive_some s.tcp x.0))
            (λ c k. rw (w x.1 (calls.after_read p s.adapter_fd)) r))
    where
      used : State → Type 0
      used s' = (s.adapter_fd.read_count == s'.adapter_fd.read_count) ≡ false

  busy_free :
      (Q : State → Type 0) (r : Rule State)
      → IfOk Q (r.callback s)
      → ((s' : State) → Q s' → is_busy s r s' ≡ false)
      → serve s r ≡ r.callback s
  busy_free Q r h k = serve_lem s r (IfOk-map Q (λ s'. is_busy s r s' ≡ false) (r.callback s) h k)

-- In a socket whose pipe has counts below 2 ^ 32, over an adapter whose reads are counted on its
-- descriptor and whose writes change no count of reads, the event loop serves each of the four
-- rules as its callback runs: the check for a busy wait never throws.
pub never_busy :
    {A P : Type 0} (adapter : FdAdapter A P) (calls : AdapterCalls P) (answers : Answers P)
    (s : TcpSpongeSocket A P)
    → s.thread_data.read_count < 2 ^ 32
    → s.thread_data.write_count < 2 ^ 32
    → ((p : P) (d : FileDescriptor) → (d.read_count == (calls.after_read p d).read_count) ≡ false)
    → ((l : List P) (d : FileDescriptor) → (calls.after_write l d).read_count ≡ d.read_count)
    → All (λ r. serve s r ≡ r.callback s) (rules adapter calls answers)
unfolding rules service_count on_segments
never_busy {A} {P} adapter calls answers s r w cr cw = (
  busy_free adapter calls s (λ s'. (s.adapter_fd.read_count == s'.adapter_fd.read_count) ≡ false)
      (datagram_rule adapter calls answers)
      (on_datagram-count adapter calls s answers.packet (cr answers.packet s.adapter_fd) cw)
      (λ s' q. unused _ _ q),
  (
    busy_free adapter calls s (HasRead adapter calls s) (outbound_rule adapter calls answers)
        (on_outbound-count adapter calls s answers.outbound r) (λ s' q. unused _ _ q),
    (
      busy_free adapter calls s (HasWritten adapter calls s) (inbound_rule adapter calls answers)
          (on_inbound-count adapter calls s answers.kernel w) (λ s' q. unused _ _ q),
      (
        busy_free adapter calls s (λ s'. wants_segments adapter calls s' ≡ false)
            (segments_rule adapter calls answers)
            (on_segments-IsUsed adapter calls s s.tcp.segments_out s) (λ s' q. uninterested _ _ q),
        tt,
      ),
    ),
  ),
)
