-- ===== src/Channel/Delivery.antt =====
-- A TCPSender (libsponge/tcp_sender.cc) and a TCPReceiver (libsponge/tcp_receiver.cc) over any
-- network.
use cs144_me.Prelude.{
  ℕ, ◌+◌, ◌^◌, ◌≤◌, ◌<◌, ◌≡◌, refl, ap, sym, ◌∙◌, Bool, true, List, [], ◌∷◌, length, get_elem?,
  arith,
}
use cs144_me.Prelude.Result.{ok, ◌>>=◌}
use cs144_me.ByteStream.{eof, input_ended}
use cs144_me.ByteStream.Inv.{read_lem}
use cs144_me.Wrapping.{WrappingInt32, big}
use cs144_me.Reassembler.Slice.{slice, slice_cong, length-slice}
use cs144_me.Reassembler.Spec.{written_le}
use cs144_me.Receiver.Place.{got}
use cs144_me.Sender.{TcpSender, tick}
use cs144_me.Receiver.{stream_out}
use cs144_me.Channel.{Net, Event, step, run, start, adds, offered, flush}
use cs144_me.Channel.Carry.{Carries, All, All-append, All-map, All-get, Later, Later-Carries}
use cs144_me.Channel.Filling.{Sends, requeued-Sends, widen-Sends}
use cs144_me.Channel.Probing.{fill_window-Sends}
use cs144_me.Channel.Sending.{new-Sends, tick-Sends, offer-Sends, ended-Sends}
use cs144_me.Channel.Receiving.{Receives, reading, new-Receives, Later-Receives, read-Receives}
use cs144_me.Channel.Acks.{IsAck, Later-IsAck, answer-IsAck, acked-Sends, arrive-Receives}

-- The last number that the receiver can have room for.
abbrev pub reach : ℕ → Net → ℕ
reach cap net = (stream_out net.receiver).total_read + cap + 1

-- What holds between the events.
pub record Agrees (src : ℕ → ℕ) (isn : WrappingInt32) (cap written : ℕ) (closed : Bool) (net : Net)
    : Type 0 where
  pub sends : Sends src isn written closed (reach cap net) (got net.receiver) net.sender
  pub receives : Receives src isn cap written closed net.receiver net.given
  pub wire : All (Carries src isn written closed) net.wire
  pub acks :
      All (IsAck isn (got net.receiver) ((stream_out net.receiver).total_read + cap + 2)) net.acks

module _ {src : ℕ → ℕ} {isn : WrappingInt32} {cap w : ℕ} {e : Bool} where
  -- The reader has got no more than the sender's application wrote.
  read_small : {net : Net} → Agrees src isn cap w e net → (stream_out net.receiver).total_read ≤ w
  read_small {net} v = omega (
    arith,
    written_le src cap w (reading net.receiver net.given) v.receives.reads,
    v.receives.reads.inv.output.valid.counted,
  )

  got_small : {net : Net} → Agrees src isn cap w e net → got net.receiver ≤ w + 2
  got_small {net} v =
      ground (arith, written_le src cap w (reading net.receiver net.given) v.receives.reads)

  -- The queue of the sender goes to the network.
  flush-Agrees :
      {net : Net} (v : Agrees src isn cap w e net) (s : TcpSender)
      → Sends src isn w e (reach cap net) (got net.receiver) s
      → Agrees src isn cap w e (flush net s)
  flush-Agrees {net} v s q = record {
    sends = requeued-Sends [] s.time_passed s.rto s.recount s.probing q tt q.flow;
    receives = v.receives;
    wire = All-append _ net.wire s.segments_out v.wire q.segments_out;
    acks = v.acks;
  }

  -- The application adds to the stream, or ends it.
  Later-Agrees :
      {net : Net} (v : Agrees src isn cap w e net) (s : TcpSender) {w' : ℕ} {e' : Bool}
      → Later w e w' e'
      → Sends src isn w' e' (reach cap net) (got net.receiver) s
      → Agrees src isn cap w' e' (record net { sender = s })
  Later-Agrees {net} v s {w'} {e'} l q = record {
    sends = q;
    receives = Later-Receives l v.receives;
    wire = All-map _ _ net.wire (Later-Carries src isn l) v.wire;
    acks = All-map _ _ net.acks (Later-IsAck isn (omega arith) (omega arith)) v.acks;
  }

module _ (src : ℕ → ℕ) (isn : WrappingInt32) (cap : ℕ) (low : isn < big) where
  -- An event throws nothing and leaves what holds between the events.
  step-Agrees :
      {w : ℕ} {closed : Bool} (net : Net) (e : Event)
      → Agrees src isn cap w closed net
      → w + adds e + cap + 2 < 2 ^ 31
      → (net' : Net) × (step src net e ≡ ok net')
        × (w' : ℕ) × (w' ≤ w + adds e)
        × (closed' : Bool) × Agrees src isn cap w' closed' net'
  unfolding step
  step-Agrees net (Event.put count) v h =
      let (w', b, l, q, _) = offer-Sends count (omega arith) v.sends in
      (_, refl, w', b, _, Later-Agrees v _ l q)
  step-Agrees net Event.close v h = (
    _,
    refl,
    _,
    omega arith,
    true,
    Later-Agrees v _ (record { grows = omega arith; stays = λ z. (refl, refl) })
        (ended-Sends v.sends),
  )
  step-Agrees {w} net Event.send v h =
      let (s', q, u) = fill_window-Sends v.sends (omega (arith, read_small v)) in
      (flush net s', rw q refl, w, omega arith, _, flush-Agrees v s' u)
  step-Agrees {w} net (Event.pass ms) v h =
      (_, refl, w, omega arith, _, flush-Agrees v (tick net.sender ms) (tick-Sends ms v.sends))
  step-Agrees {w} net Event.reply v h = (
    _,
    refl,
    w,
    omega arith,
    _,
    record {
      sends = v.sends;
      receives = v.receives;
      wire = v.wire;
      acks = answer-IsAck net.acks v.receives (omega arith) v.acks;
    },
  )
  step-Agrees {w} net (Event.ack i) v h = (
    _,
    refl,
    w,
    omega arith,
    _,
    Later-Agrees v _ (record { grows = omega arith; stays = λ z. (z, refl) })
        (acked-Sends (get_elem? net.acks i) low (omega arith) (omega arith) (got_small v)
          (omega arith) (All-get _ net.acks i v.acks) v.sends),
  )
  step-Agrees {w} net (Event.deliver i) v h =
      let (r', q, u, same, more) =
        arrive-Receives (get_elem? net.wire i) (omega arith) low (All-get _ net.wire i v.wire)
          v.receives in
      (
        record net { receiver = r' },
        rw q refl,
        w,
        omega arith,
        _,
        record {
          sends = widen-Sends (omega (arith, same)) more v.sends;
          receives = u;
          wire = v.wire;
          acks = All-map _ _ net.acks (Later-IsAck isn more (omega (arith, same))) v.acks;
        },
      )
  step-Agrees {w} net (Event.read len) v h = (
    _,
    rw (read_lem len v.receives.reads.inv.output.valid) refl,
    w,
    omega arith,
    _,
    record {
      sends = widen-Sends (omega arith) (omega arith) v.sends;
      receives = read-Receives len (omega arith) v.receives;
      wire = v.wire;
      acks = All-map _ _ net.acks (Later-IsAck isn (omega arith) (omega arith)) v.acks;
    },
  )

  run-Agrees :
      (es : List Event) {w : ℕ} {closed : Bool} (net : Net)
      → Agrees src isn cap w closed net
      → w + offered es + cap + 2 < 2 ^ 31
      → (net' : Net) × (run src net es ≡ ok net')
        × (w' : ℕ) × (w' ≤ w + offered es)
        × (closed' : Bool) × Agrees src isn cap w' closed' net'
  unfolding run
  run-Agrees [] {w} {closed} net v h = (net, refl, w, omega arith, closed, v)
  run-Agrees (e ∷ es) net v h =
      let (net', q, w', b, c', v') = step-Agrees net e v (omega arith) in
      let (net'', q', w'', b', c'', v'') = run-Agrees es net' v' (omega arith) in
      (net'', ap (λ x. x >>= λ y. run src y es) q ∙ q', w'', omega arith, c'', v'')

-- What the two applications see: the bytes given are the first of those written.
pub record Delivers (src : ℕ → ℕ) (net : Net) : Type 0 where
  pub given : net.given ≡ slice src 0 (length net.given)
  pub within : length net.given ≤ net.sender.stream.written
  pub ended :
      eof (stream_out net.receiver) ≡ true
      → (net.sender.stream.end ≡ true) × (length net.given ≡ net.sender.stream.written)

-- The reader's bytes are those taken from the receiver's stream.
pub given_count :
    {src : ℕ → ℕ} {isn cap w : ℕ} {e : Bool} {net : Net}
    → Agrees src isn cap w e net
    → length net.given ≡ (stream_out net.receiver).total_read
given_count {src} v = ap length v.receives.reads.given ∙ length-slice src 0 _

Agrees-Delivers :
    (src : ℕ → ℕ) (isn cap w : ℕ) (e : Bool) (net : Net)
    → Agrees src isn cap w e net
    → Delivers src net
unfolding eof input_ended
Agrees-Delivers src isn cap w e net v = record {
  given = v.receives.reads.given ∙ slice_cong src refl (sym count);
  within = omega (arith, count, bound, v.receives.reads.inv.output.valid, v.sends.written_is);
  ended = λ z. (
    v.sends.ended_is ∙ (v.receives.stops (ground arith)).0,
    ground (
      arith, count, v.receives.stops, v.receives.reads.inv.output.valid.counted, v.sends.written_is,
    ),
  );
}
  where
    count : length net.given ≡ (stream_out net.receiver).total_read
    count = given_count v

    bound : (stream_out net.receiver).written ≤ w
    bound = written_le src cap w (reading net.receiver net.given) v.receives.reads

-- Any events, from new ends.
pub run_start :
    (src : ℕ → ℕ) (isn timeout send_capacity recv_capacity : ℕ) (es : List Event)
    → isn < 2 ^ 32
    → send_capacity < 2 ^ 31
    → offered es + recv_capacity + 2 < 2 ^ 31
    → (net : Net) × (run src (start isn timeout send_capacity recv_capacity) es ≡ ok net)
      × (w : ℕ) × (closed : Bool) × Agrees src isn recv_capacity w closed net
run_start src isn timeout sc rc es low h k =
    let (net, q, w, b, c, v) =
      run-Agrees src isn rc low es (start isn timeout sc rc)
        (record {
          sends =
              new-Sends src isn sc timeout (reach rc (start isn timeout sc rc))
                (got (start isn timeout sc rc).receiver) h;
          receives = new-Receives src isn rc (omega arith);
          wire = tt;
          acks = tt;
        })
        (omega arith) in
    (net, q, w, c, v)

-- Take a stream, a new sender with an initial sequence number below 2 ^ 32, and a new receiver, of
-- any capacities below 2 ^ 31, and any events: writes, the end of the stream, fills of the window,
-- timeouts, acknowledgments, reads, and a network that delivers any segment or acknowledgment ever
-- sent, in any order, many times or never. All bytes offered and the receiver's capacity make less
-- than 2 ^ 31 - 2. Nothing is thrown; the reader has got, in order and once each, the first bytes of
-- the stream, none of which the sender did not take; and once the receiver is at its end of file, the
-- sender's stream is ended and the reader has got all of it.
pub run-Delivers :
    (src : ℕ → ℕ) (isn timeout send_capacity recv_capacity : ℕ) (es : List Event)
    → isn < 2 ^ 32
    → send_capacity < 2 ^ 31
    → offered es + recv_capacity + 2 < 2 ^ 31
    → (net : Net) × (run src (start isn timeout send_capacity recv_capacity) es ≡ ok net)
      × Delivers src net
run-Delivers src isn timeout sc rc es low h k =
    let (net, q, w, c, v) = run_start src isn timeout sc rc es low h k in
    (net, q, Agrees-Delivers src isn rc w c net v)
