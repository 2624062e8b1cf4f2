-- ===== src/Sender/Ack.antt =====
-- ack_received of libsponge/tcp_sender.cc: which segments stay outstanding.
use cs144_me.Prelude.{
  ℕ, ◌+◌, ◌-◌, ◌^◌, ◌≤◌, ◌<◌, ◌≡◌, inl, inr, max, refl, ap, ◌∙◌, Bool, true, false, ◌||◌, List, [],
  ◌∷◌, ltb, leb, if◌then◌else◌, arith, Bool-cases, leb→le,
}
use cs144_me.Prelude.Word.{sub_size}
use cs144_me.Wrapping.{wrap}
use cs144_me.Header.Tcp.{TcpSegment, length_in_sequence_space}
use cs144_me.Sender.{TcpSender, drop_acked, accept_ack, ack_received}
use cs144_me.Sender.Inv.{Inv, Chain}
use cs144_me.Wrapping.{unwrap, big}
use cs144_me.Wrapping.Closest.{unwrap-wrap, gap}
use cs144_me.ByteStream.{bytes_read}
use cs144_me.ByteStream.Inv.{bytes_read_lem}

-- The segments that end after `ackabs`, from the first of them on, and the number it starts at.
abbrev pub after_ack : ℕ → ℕ → List TcpSegment → ℕ × List TcpSegment
after_ack ackabs from [] = (from, [])
after_ack ackabs from (seg ∷ segs) =
    let rest = after_ack ackabs (from + length_in_sequence_space seg) segs in
    if leb (from + length_in_sequence_space seg) ackabs then rest else (from, seg ∷ segs)

Chain-le : (isn from to : ℕ) (segs : List TcpSegment) → Chain isn from segs to → from ≤ to
Chain-le isn from to [] c = omega arith
Chain-le isn from to (seg ∷ segs) c =
    omega (arith, Chain-le isn (from + length_in_sequence_space seg) to segs c.3)

after_ack-Chain :
    (isn ackabs from to : ℕ) (segs : List TcpSegment)
    → Chain isn from segs to
    → let (base, rest) = after_ack ackabs from segs in
      Chain isn base rest to × (from ≤ base) × (base ≤ to) × (base ≤ max from ackabs)
after_ack-Chain isn ackabs from to [] c = ground arith
after_ack-Chain isn ackabs from to (seg ∷ segs) c =
    let r = after_ack-Chain isn ackabs (from + length_in_sequence_space seg) to segs c.3 in
    elim (Bool-cases (leb (from + length_in_sequence_space seg) ackabs)) [
      | inl e ↦ rw e (r.0, omega (arith, r), omega (arith, r), omega (arith, r, leb→le _ _ e))
      | inr e ↦ rw e (c, omega arith, Chain-le isn from to (seg ∷ segs) c, omega arith)
    ]

-- The loop pops exactly those, when the numbers are close enough to the checkpoint.
drop_acked_lem :
    (isn checkpoint ackabs from to in_flights : ℕ) (segs : List TcpSegment) (rm : Bool)
    → isn < big
    → checkpoint ≤ to
    → to < checkpoint + 2 ^ 31
    → to < from + 2 ^ 31
    → to < 2 ^ 62
    → checkpoint < from + 2 ^ 31
    → Chain isn from segs to
    → from + in_flights ≡ to
    → drop_acked isn checkpoint ackabs segs in_flights rm ≡ (
      (after_ack ackabs from segs).1,
      to - (after_ack ackabs from segs).0,
      rm || ltb from (after_ack ackabs from segs).0,
    )
unfolding drop_acked
drop_acked_lem isn cp ackabs from to in_flights [] rm i l k m n o c e = ground arith
drop_acked_lem isn cp ackabs from to in_flights (seg ∷ segs) rm i l k m n o c e =
    let le = Chain-le isn (from + length_in_sequence_space seg) to segs c.3 in
    let u =
      ap (λ q. unwrap q isn cp) c.0
      ∙ unwrap-wrap from isn cp i (omega arith) (omega arith) (omega arith) in
    let a = after_ack-Chain isn ackabs (from + length_in_sequence_space seg) to segs c.3 in
    let ih =
      drop_acked_lem isn cp ackabs (from + length_in_sequence_space seg) to
        (sub_size in_flights (length_in_sequence_space seg)) segs true i l k (omega arith) n
        (omega arith) c.3 (omega arith) in
    elim (Bool-cases (leb (from + length_in_sequence_space seg) ackabs)) [
      | inl d ↦ ground (arith, u, ih, a)
      | inr d ↦ ground (arith, u)
    ]

-- What an acknowledgment of every number below `x`, with a window, makes of the state.
pub record Acked (s : TcpSender) (base x win : ℕ) (s' : TcpSender) : Type 0 where
  pub inv : Inv s' (after_ack x base s.outstandings).0
  pub outstandings : s'.outstandings ≡ (after_ack x base s.outstandings).1
  pub base_le : base ≤ (after_ack x base s.outstandings).0
  pub base_ge : (after_ack x base s.outstandings).0 ≤ max base x
  pub window : s'.window ≡ win
  pub window_right : s'.window_right ≡ max s.window_right (x + win - 1)
  pub next_seqno : s'.next_seqno ≡ s.next_seqno
  pub segments_out : s'.segments_out ≡ s.segments_out
  pub stream : s'.stream ≡ s.stream
  pub isn : s'.isn ≡ s.isn
  pub probing : s'.probing ≡ (if ltb s.window_right (x + win - 1) then false else s.probing)
  pub recount : s'.recount ≡ (if ltb base (after_ack x base s.outstandings).0 then 0 else s.recount)
  pub rto : s'.rto ≡ (
      if ltb base (after_ack x base s.outstandings).0
      then s.initial_retransmission_timeout
      else s.rto)

-- The acknowledgment numbers that the code reads as they are meant, and segments close enough to
-- one another.
pub record IsNear (s : TcpSender) (x : ℕ) : Type 0 where
  pub isn : s.isn < big
  pub close : gap x s.stream.total_read < 2 ^ 31
  pub sent : s.next_seqno < s.stream.total_read + 2 ^ 31
  pub flight : s.in_flights < 2 ^ 31

module _ {s : TcpSender} {base : ℕ} (v : Inv s base) (x : ℕ) (near : IsNear s x) where
  read_le : s.stream.total_read ≤ s.next_seqno
  read_le = ground (arith, v.unread, v.ahead)

  ackno_lem : unwrap (wrap x s.isn) s.isn (bytes_read s.stream) ≡ x
  ackno_lem = rw (bytes_read_lem v.stream) (
      unwrap-wrap x s.isn s.stream.total_read near.isn
        (omega (arith, near.close, v.stream.no_wrap, v.stream.counted))
        (omega (arith, v.stream.no_wrap, v.stream.counted)) near.close)

  dropped : drop_acked s.isn (bytes_read s.stream) x s.outstandings s.in_flights false ≡ (
    (after_ack x base s.outstandings).1,
    s.next_seqno - (after_ack x base s.outstandings).0,
    ltb base (after_ack x base s.outstandings).0,
  )
  dropped = rw (bytes_read_lem v.stream) (
      drop_acked_lem s.isn s.stream.total_read x base s.next_seqno s.in_flights s.outstandings false
        near.isn read_le near.sent (omega (arith, v.flight, near.flight))
        (omega (arith, near.sent, v.stream.no_wrap, v.stream.counted))
        (omega (arith, v.flight, near.flight, read_le)) v.chain v.flight)

  accept_ack_lem :
      (window : ℕ)
      → 0 < x + window
      → window < 2 ^ 16
      → Acked s base x window (accept_ack s x window)
  unfolding accept_ack
  accept_ack_lem w p h = rw dropped (record {
    inv = record {
      stream = v.stream;
      chain = a.0;
      flight = omega (arith, a);
      unread = v.unread;
      ahead = v.ahead;
      finished = v.finished;
    };
    outstandings = refl;
    base_le = a.1;
    base_ge = a.3;
    window = refl;
    window_right = ground (arith, near.close, v.stream.no_wrap, v.stream.counted);
    next_seqno = refl;
    segments_out = refl;
    stream = refl;
    isn = refl;
    probing = ground (arith, near.close, v.stream.no_wrap, v.stream.counted);
    recount = refl;
    rto = refl;
  })
    where
      a :
          let (base', rest) = after_ack x base s.outstandings in
          Chain s.isn base' rest s.next_seqno
          × (base ≤ base')
          × (base' ≤ s.next_seqno)
          × (base' ≤ max base x)
      a = after_ack-Chain s.isn x base s.next_seqno s.outstandings v.chain

-- An acknowledgment of a number that was not sent yet changes nothing.
ack_ahead :
    {s : TcpSender} {base : ℕ} (x window : ℕ)
    → Inv s base
    → IsNear s x
    → s.next_seqno < x
    → ack_received s (wrap x s.isn) window ≡ s
unfolding ack_received
ack_ahead x w v near h = rw (ackno_lem v x near) (ground arith)

-- Take a sender with the invariant, and an acknowledgment of every number below `x`, with a
-- 16-bit window, not both 0; `x` and the numbers sent are less than 2 ^ 31 away from the bytes
-- read, and less than 2 ^ 31 numbers are in flight. If `x` was not sent yet, nothing changes.
-- Otherwise exactly the outstanding segments that end by `x` are dropped, the bytes in flight are
-- those of the others, the right edge never moves back, and the timeout and the count of
-- retransmissions start again exactly if a segment was dropped.
pub ack_received_lem :
    (s : TcpSender) (base x window : ℕ)
    → Inv s base
    → IsNear s x
    → 0 < x + window
    → window < 2 ^ 16
    → (s.next_seqno < x → ack_received s (wrap x s.isn) window ≡ s)
      × (x ≤ s.next_seqno → Acked s base x window (ack_received s (wrap x s.isn) window))
unfolding ack_received
ack_received_lem s base x w v near p h = (
  ack_ahead x w v near,
  λ l. rw (ackno_lem v x near, not_ahead l) (accept_ack_lem v x near w p h),
)
  where
    not_ahead : x ≤ s.next_seqno → ltb s.next_seqno x ≡ false
    not_ahead l = ground arith
