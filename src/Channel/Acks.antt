-- ===== src/Channel/Acks.antt =====
-- What a TCPReceiver (libsponge/tcp_receiver.cc) acknowledges, and what arrives at each end.
use cs144_me.Prelude.{
  ℕ, ◌+◌, ◌-◌, ◌^◌, ◌≤◌, ◌<◌, ◌≡◌, inl, inr, refl, ap, ◌∙◌, Bool, true, false, Option, none, some,
  Bool-cases, List, length, arith,
}
use cs144_me.Prelude.Result.{ok}
use cs144_me.ByteStream.Inv.{IsValid, remaining_capacity_lem}
use cs144_me.Wrapping.{WrappingInt32, wrap, big}
use cs144_me.Header.Tcp.{TcpSegment, empty_segment}
use cs144_me.Sender.{TcpSender}
use cs144_me.Receiver.{TcpReceiver, ackno, window_size, stream_out}
use cs144_me.Receiver.Place.{ackno_lem, expected, got}
use cs144_me.Connection.{stamp}
use cs144_me.Channel.{answer, arrive, acked}
use cs144_me.Channel.Carry.{Carries, All, IfSome, All-append}
use cs144_me.Channel.Filling.{Sends}
use cs144_me.Channel.Sending.{ack-Sends}
use cs144_me.Channel.Receiving.{Receives, segment_received-Receives}

-- An acknowledgment of a number up to `limit`, with a 16-bit window that ends before `reach`.
pub record IsAck (isn : WrappingInt32) (limit reach : ℕ) (seg : TcpSegment) : Type 0 where
  pub number : ℕ
  pub ackno : seg.header.ackno ≡ wrap number isn
  pub positive : 0 < number
  pub within : number ≤ limit
  pub window : seg.header.win < 2 ^ 16
  pub room : number + seg.header.win ≤ reach

pub Later-IsAck :
    (isn : WrappingInt32) {limit limit' reach reach' : ℕ}
    → limit ≤ limit'
    → reach ≤ reach'
    → (seg : TcpSegment) → IsAck isn limit reach seg
    → IsAck isn limit' reach' seg
Later-IsAck isn h k seg a = record {
  number = a.number;
  ackno = a.ackno;
  positive = a.positive;
  within = omega (arith, a.within);
  window = a.window;
  room = omega (arith, a.room);
}

ackno_none : (r : TcpReceiver) → r.syned ≡ false → ackno r ≡ none
unfolding ackno
ackno_none r h = ground arith

window_lem :
    (r : TcpReceiver)
    → IsValid (stream_out r)
    → window_size r ≡ (stream_out r).capacity - length (stream_out r).buffer
unfolding window_size
window_lem r v = remaining_capacity_lem v

stamp-IsAck :
    (isn limit reach number window : ℕ)
    → 0 < number
    → number ≤ limit
    → number + window ≤ reach
    → IsAck isn limit reach (stamp (some (wrap number isn)) window empty_segment)
unfolding stamp
stamp-IsAck isn limit reach number window h k l = record {
  number = number;
  ackno = refl;
  positive = h;
  within = k;
  window = omega arith;
  room = omega arith;
}

pub answer-IsAck :
    {src : ℕ → ℕ} {isn cap w : ℕ} {e : Bool} {r : TcpReceiver} {given : List ℕ}
    (acks : List TcpSegment)
    → Receives src isn cap w e r given
    → cap < 2 ^ 31
    → All (IsAck isn (got r) ((stream_out r).total_read + cap + 2)) acks
    → All (IsAck isn (got r) ((stream_out r).total_read + cap + 2)) (answer acks r (ackno r))
answer-IsAck {src} {isn} {cap} {w} {e} {r} {given} acks v small a = elim (Bool-cases r.syned) [
  | inl z ↦ rw (acked_number z) (
      All-append _ acks _ a (
        stamp-IsAck isn (got r) ((stream_out r).total_read + cap + 2) (expected r) (window_size r)
            (ground arith) (ground arith)
            (ground (arith, window, v.reads.inv.output.valid.counted)),
        tt,
      ))
  | inr z ↦ rw (ackno_none r z) a
]
  where
    acked_number : r.syned ≡ true → ackno r ≡ some (wrap (expected r) isn)
    acked_number z =
        ackno_lem r z v.reads.inv.output.valid ∙ ap (λ i. some (wrap (expected r) i)) (v.isn_is z)

    window : window_size r ≡ cap - length (stream_out r).buffer
    window =
        window_lem r v.reads.inv.output.valid
        ∙ ap (λ c. c - length (stream_out r).buffer)
            (v.reads.inv.output.capacity ∙ v.reads.capacity)

pub acked-Sends :
    {src : ℕ → ℕ} {isn w edge held bound limit : ℕ} {e : Bool} {s : TcpSender}
    (ack : Option TcpSegment)
    → isn < big
    → w + 2 < 2 ^ 31
    → bound ≤ edge + 1
    → limit ≤ w + 2
    → limit ≤ held
    → IfSome (IsAck isn limit bound) ack
    → Sends src isn w e edge held s
    → Sends src isn w e edge held (acked s ack)
acked-Sends none i h b k l a v = v
acked-Sends (some seg) i h b k l a v = rw a.ackno (
    ack-Sends a.number seg.header.win v i a.positive (omega (arith, a.within)) h a.window
      (omega (arith, a.room)) (omega (arith, a.within)))

pub arrive-Receives :
    {src : ℕ → ℕ} {isn cap w : ℕ} {e : Bool} {r : TcpReceiver} {given : List ℕ}
    (seg : Option TcpSegment)
    → w + cap + 2 < 2 ^ 31
    → isn < big
    → IfSome (Carries src isn w e) seg
    → Receives src isn cap w e r given
    → (r' : TcpReceiver) × (arrive r seg ≡ ok r')
      × Receives src isn cap w e r' given
      × ((stream_out r').total_read ≡ (stream_out r).total_read)
      × (got r ≤ got r')
arrive-Receives {r = r} none h i c v = (r, refl, v, refl, omega arith)
arrive-Receives (some seg) h i c v = segment_received-Receives h i seg c v
