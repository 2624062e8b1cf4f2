-- ===== src/Channel/Receiving.antt =====
-- The operations of a TCPReceiver (libsponge/tcp_receiver.cc) that gets segments of one stream.
use native.Mathlib.Nat.{le_trans}
use cs144_me.Prelude.{
  ℕ, ◌+◌, ◌-◌, ◌^◌, ◌≤◌, ◌<◌, ◌≡◌, ◌⊎◌, inl, inr, refl, ap, sym, ◌∙◌, Bool, true, false, List, [],
  length, arith, Bool-cases,
}
use cs144_me.Prelude.Result.{ok}
use cs144_me.ByteStream
use cs144_me.ByteStream.{ByteStream}
use cs144_me.Wrapping.{WrappingInt32, wrap, big}
use cs144_me.Header.Tcp.{TcpSegment}
use cs144_me.Reassembler
use cs144_me.Reassembler.{size_max}
use cs144_me.Reassembler.Slice.{slice_cong}
use cs144_me.Reassembler.Spec.{
  Reading, IsReading, start-IsReading, written_le, AfterPush-IsReading, after_read,
  after_read-IsReading,
}
use cs144_me.Receiver
use cs144_me.Receiver.{TcpReceiver, segment_received, push_payload, stream_out}
use cs144_me.Receiver.Place.{
  got, got-le-expected, Received-got, push_payload_lem, segment_received_lem, Received,
}
use cs144_me.Channel.Carry.{Carries, Later}

-- The receiver and what its reader got.
abbrev pub reading : TcpReceiver → List ℕ → Reading
reading r given = record { reassembler = r.reassembler; given = given }

-- A receiver that holds bytes of the stream only, and ends where the stream ended.
pub record Receives (src : ℕ → ℕ) (isn : WrappingInt32) (cap written : ℕ) (ended : Bool)
    (r : TcpReceiver) (given : List ℕ) : Type 0 where
  pub reads : IsReading src cap written (reading r given)
  pub isn_is : r.syned ≡ true → r.isn ≡ isn
  pub finish :
      (r.reassembler.end_idx ≡ size_max) ⊎ ((ended ≡ true) × (r.reassembler.end_idx ≡ written))
  pub stops : (stream_out r).end ≡ true → (ended ≡ true) × ((stream_out r).written ≡ written)

pub new-Receives :
    (src : ℕ → ℕ) (isn cap : ℕ) → cap < 2 ^ 31 → Receives src isn cap 0 false (Receiver.new cap) []
unfolding Receiver.new Reassembler.new ByteStream.new
new-Receives src isn cap h = record {
  reads = start-IsReading src cap 0 h;
  isn_is = λ z. absurd (ground arith);
  finish = inl refl;
  stops = λ z. absurd (ground arith);
}

module _ {src : ℕ → ℕ} {isn : WrappingInt32} {cap w : ℕ} {e : Bool} {r : TcpReceiver}
    {given : List ℕ} where
  pub Later-Receives :
      {w' : ℕ} {e' : Bool}
      → Later w e w' e'
      → Receives src isn cap w e r given
      → Receives src isn cap w' e' r given
  Later-Receives l v = record {
    reads = record {
      inv = v.reads.inv;
      capacity = v.reads.capacity;
      within = λ i p. omega (arith, v.reads.within i p, l.grows);
      given = v.reads.given;
    };
    isn_is = v.isn_is;
    finish = elim v.finish [ inl z ↦ inl z | inr z ↦ inr ((l.stays z.0).0, z.1 ∙ (l.stays z.0).1) ];
    stops = λ z. ((l.stays (v.stops z).0).0, (v.stops z).1 ∙ (l.stays (v.stops z).0).1);
  }

  pub read-Receives :
      (len : ℕ)
      → w + cap < 2 ^ 31
      → Receives src isn cap w e r given
      → let s : Reading = after_read (reading r given) len in
        Receives src isn cap w e (record r { reassembler = s.reassembler }) s.given
  read-Receives len h v = record {
    reads = after_read-IsReading src cap w h (reading r given) len v.reads;
    isn_is = v.isn_is;
    finish = v.finish;
    stops = v.stops;
  }

  -- A part of the stream that is pushed at its place, with the SYN seen.
  Received-Receives :
      (r' : TcpReceiver) (seg : TcpSegment) (x : ℕ)
      → Receives src isn cap w e r given
      → w + cap < 2 ^ 31
      → r.isn ≡ isn
      → x + length seg.payload ≤ w
      → (seg.header.fin ≡ true → (e ≡ true) × (x + length seg.payload ≡ w))
      → Received src r x (length seg.payload) seg.header.fin r'
      → Receives src isn cap w e r' given
  Received-Receives r' seg x v small i h f a = record {
    reads = reads';
    isn_is = λ z. a.isn ∙ i;
    finish = finish';
    stops = λ z. elim (Bool-cases (stream_out r).end) [
      | inl was ↦ ((v.stops was).0, omega (arith, (v.stops was).1, a.push.grows, bound))
      | inr not_yet ↦ elim finish' [
        | inl none ↦ absurd (ground (arith, a.push.ended, bound))
        | inr set ↦ (set.0, ground (arith, a.push.ended))
      ]
    ];
  }
    where
      reads' : IsReading src cap w (reading r' given)
      reads' =
          AfterPush-IsReading src cap w (reading r given) x (length seg.payload) seg.header.fin
            r'.reassembler v.reads h a.push

      bound : (stream_out r').written ≤ w
      bound = written_le src cap w (reading r' given) reads'

      finish' : (r'.reassembler.end_idx ≡ size_max) ⊎ ((e ≡ true) × (r'.reassembler.end_idx ≡ w))
      finish' = elim (Bool-cases seg.header.fin) [
        | inl z ↦ inr ((f z).0, ground (arith, a.push.end_idx, f z))
        | inr z ↦ elim v.finish [
          | inl old ↦ inl (ground (arith, a.push.end_idx))
          | inr old ↦ inr (old.0, ground (arith, a.push.end_idx))
        ]
      ]

wrap_isn : (isn : ℕ) → isn < big → wrap 0 isn ≡ isn
unfolding wrap
wrap_isn isn h = omega arith

-- The receiver once it has seen a SYN.
abbrev synced : TcpReceiver → WrappingInt32 → TcpReceiver
synced r n = record r { isn = n; syned = true }

received_syn :
    (r : TcpReceiver) (seg : TcpSegment)
    → seg.header.syn ≡ true
    → segment_received r seg ≡ push_payload (synced r seg.header.seqno) seg 0
unfolding segment_received
received_syn r seg h = ground arith

received_early :
    (r : TcpReceiver) (seg : TcpSegment)
    → r.syned ≡ false
    → seg.header.syn ≡ false
    → segment_received r seg ≡ ok r
unfolding segment_received
received_early r seg h k = ground arith

module _ {src : ℕ → ℕ} {isn : WrappingInt32} {cap w : ℕ} {e : Bool} {r : TcpReceiver}
    {given : List ℕ} (small : w + cap + 2 < 2 ^ 31) (low : isn < big) where
  syn-Receives :
      (seg : TcpSegment)
      → Carries src isn w e seg
      → seg.header.syn ≡ true
      → Receives src isn cap w e r given
      → (r' : TcpReceiver) × (segment_received r seg ≡ ok r')
        × Receives src isn cap w e r' given
        × ((stream_out r').total_read ≡ (stream_out r).total_read)
        × (got r ≤ got r')
  syn-Receives seg c z v =
      let (r', q, a) =
        push_payload_lem src (synced r seg.header.seqno) seg 0 refl v.reads.inv
          (c.payload ∙ slice_cong src first refl) (omega (arith, c.within)) in
      (
        r',
        received_syn r seg z ∙ q,
        Received-Receives r' seg 0
            (record { reads = v.reads; isn_is = λ y. number; finish = v.finish; stops = v.stops })
            (omega arith) number (omega (arith, c.within))
            (λ y. ((c.fin y).0, omega (arith, first, (c.fin y).1))) a,
        a.push.read,
        le_trans (got-le-expected r) (Received-got a),
      )
    where
      first : c.from - 1 ≡ 0
      first = ground (arith, c.syn)

      number : seg.header.seqno ≡ isn
      number = c.seqno ∙ ap (λ n. wrap n isn) (ground (arith, c.syn)) ∙ wrap_isn isn low

  later-Receives :
      (seg : TcpSegment)
      → Carries src isn w e seg
      → seg.header.syn ≡ false
      → r.syned ≡ true
      → Receives src isn cap w e r given
      → (r' : TcpReceiver) × (segment_received r seg ≡ ok r')
        × Receives src isn cap w e r' given
        × ((stream_out r').total_read ≡ (stream_out r).total_read)
        × (got r ≤ got r')
  later-Receives seg c n z v =
      let (r', q, a) =
        segment_received_lem src r seg (c.from - 1) z n number (rw i low)
          (omega (arith, c.within, written_le src cap w (reading r given) v.reads)) v.reads.inv
          c.payload (omega (arith, c.within)) in
      (
        r',
        q,
        Received-Receives r' seg (c.from - 1) v (omega arith) i c.within c.fin a,
        a.push.read,
        le_trans (got-le-expected r) (Received-got a),
      )
    where
      i : r.isn ≡ isn
      i = v.isn_is z

      number : seg.header.seqno ≡ wrap (c.from - 1 + 1) r.isn
      number =
          c.seqno
          ∙ ap (λ n. wrap n isn) (ground (arith, c.syn))
          ∙ ap (wrap (c.from - 1 + 1)) (sym i)

  -- Any segment of the stream, in whatever state the receiver is.
  pub segment_received-Receives :
      (seg : TcpSegment)
      → Carries src isn w e seg
      → Receives src isn cap w e r given
      → (r' : TcpReceiver) × (segment_received r seg ≡ ok r')
        × Receives src isn cap w e r' given
        × ((stream_out r').total_read ≡ (stream_out r).total_read)
        × (got r ≤ got r')
  segment_received-Receives seg c v = elim (Bool-cases seg.header.syn) [
    | inl z ↦ syn-Receives seg c z v
    | inr n ↦ elim (Bool-cases r.syned) [
      | inl z ↦ later-Receives seg c n z v
      | inr z ↦ (r, received_early r seg z n, v, refl, omega arith)
    ]
  ]
