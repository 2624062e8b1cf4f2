-- ===== src/Channel/Sending.antt =====
-- The other operations of a TCPSender (libsponge/tcp_sender.cc) on a sender whose segments carry its
-- stream: what the application writes, the timer, and the acknowledgments.
use cs144_me.Prelude.{
  ℕ, ◌+◌, ◌^◌, ◌≤◌, ◌<◌, ◌≡◌, inl, inr, refl, ap, sym, ◌∙◌, Bool, true, false, List, [], ◌∷◌, ◌++◌,
  length, take, length-take, length-append, leb, arith, Bool-cases,
}
use native.Mathlib.Decide.{dec_le}
use cs144_me.Prelude.Result.{if-both}
use cs144_me.ByteStream
use cs144_me.ByteStream.{ByteStream, input_ended, end_input}
use cs144_me.ByteStream.Inv.{IsValid, accepted, after_write, write_lem, write-IsValid}
use cs144_me.Wrapping.{WrappingInt32, wrap, big}
use cs144_me.Header.Tcp.{TcpSegment, length_in_sequence_space}
use cs144_me.Reassembler.Slice.{slice, slice_cong, take-slice, slice-append, length-slice}
use cs144_me.Sender
use cs144_me.Sender.{TcpSender, ack_received, tick, tick_queue, retransmit}
use cs144_me.Sender.Inv.{new-Inv}
use cs144_me.Sender.Ack.{after_ack, Acked, IsNear, ack_received_lem}
use cs144_me.Channel.{offer, ended}
use cs144_me.Channel.Carry.{Carries, All, All-append, All-map, Later, Later-Carries}
use cs144_me.Channel.Filling.{Sends, requeued-Sends}

pub new-Sends :
    (src : ℕ → ℕ) (isn cap timeout edge held : ℕ)
    → cap < 2 ^ 31
    → Sends src isn 0 false edge held (Sender.new cap timeout isn)
unfolding Sender.new ByteStream.new
new-Sends src isn cap timeout edge held h = record {
  base = 0;
  inv = new-Inv cap timeout isn h;
  isn_is = refl;
  written_is = refl;
  ended_is = refl;
  edge_is = omega arith;
  held_is = omega arith;
  flow = omega arith;
  opened = λ z. absurd (omega arith);
  near = omega arith;
  done = λ z. absurd (omega arith);
  buffer = refl;
  outstandings = tt;
  segments_out = tt;
}

Later-put : (w k : ℕ) (e : Bool) → e ≡ false → Later w e (w + k) e
Later-put w k e h = record { grows = omega arith; stays = λ z. absurd (ground arith) }

All-after_ack :
    (P : TcpSegment → Type 0) (x from : ℕ) (segs : List TcpSegment)
    → All P segs
    → All P (after_ack x from segs).1
All-after_ack P x from [] c = tt
All-after_ack P x from (seg ∷ segs) c =
    elim (Bool-cases (leb (from + length_in_sequence_space seg) x)) [
      | inl h ↦ rw h (All-after_ack P x (from + length_in_sequence_space seg) segs c.1)
      | inr h ↦ rw h c
    ]

offer_ended :
    (src : ℕ → ℕ) (s : TcpSender) (count : ℕ) → s.stream.end ≡ true → offer src s count ≡ s
unfolding input_ended
offer_ended src s count h = ground arith

offer_open :
    (src : ℕ → ℕ) (s : TcpSender) (count : ℕ)
    → s.stream.end ≡ false
    → IsValid s.stream
    → s.stream.written + accepted s.stream (slice src s.stream.written count) < 2 ^ 31
    → offer src s count
      ≡ record s { stream = after_write s.stream (slice src s.stream.written count) }
unfolding input_ended
offer_open src s count h v k = ground (arith, write_lem (slice src s.stream.written count) v k)

module _ {src : ℕ → ℕ} {isn : WrappingInt32} {w : ℕ} {e : Bool} {edge held : ℕ}
    {s : TcpSender} where
  tick_queue-Sends :
      (segs : List TcpSegment) (ms : ℕ)
      → All (Carries src isn w e) segs
      → Sends src isn w e edge held s
      → Sends src isn w e edge held (tick_queue s segs ms)
  unfolding tick_queue
  tick_queue-Sends [] ms c v = v
  tick_queue-Sends (seg ∷ segs) ms c v =
      if-both (Sends src isn w e edge held) _ _ _
        (requeued-Sends _ _ _ _ s.probing v
          (All-append _ s.segments_out (seg ∷ []) v.segments_out (c.0, tt)) v.flow)
        (requeued-Sends s.segments_out _ s.rto s.recount s.probing v v.segments_out v.flow)

  pub tick-Sends :
      (ms : ℕ) → Sends src isn w e edge held s → Sends src isn w e edge held (tick s ms)
  unfolding tick
  tick-Sends ms v = tick_queue-Sends s.outstandings ms v.outstandings v

  -- A stream that has grown or ended since.
  restreamed-Sends :
      {w' : ℕ} {e' : Bool} (stream : ByteStream)
      → Sends src isn w e edge held s
      → Later w e w' e'
      → IsValid stream
      → stream.total_read ≡ s.stream.total_read
      → stream.written ≡ w'
      → stream.end ≡ e'
      → stream.buffer ≡ slice src stream.total_read (length stream.buffer)
      → Sends src isn w' e' edge held (record s { stream = stream })
  restreamed-Sends stream v l valid r q f b = record {
    base = v.base;
    inv = record {
      stream = valid;
      chain = v.inv.chain;
      flight = v.inv.flight;
      unread = λ z. r ∙ v.inv.unread z;
      ahead = λ z. omega (arith, v.inv.ahead z, r);
      finished = λ z. (
        f ∙ (l.stays (was z)).0,
        omega (arith, (v.inv.finished z).1, (l.stays (was z)).1, v.written_is, q),
      );
    };
    isn_is = v.isn_is;
    written_is = q;
    ended_is = f;
    edge_is = v.edge_is;
    held_is = v.held_is;
    flow = v.flow;
    opened = v.opened;
    near = omega (arith, v.near, r);
    done = λ z. (
      f ∙ (l.stays (past z)).0,
      omega (arith, r, (v.done (omega (arith, r))).1, (l.stays (past z)).1),
    );
    buffer = b;
    outstandings = All-map _ _ s.outstandings (Later-Carries src isn l) v.outstandings;
    segments_out = All-map _ _ s.segments_out (Later-Carries src isn l) v.segments_out;
  }
    where
      was : s.fin_sent ≡ true → e ≡ true
      was z = sym v.ended_is ∙ (v.inv.finished z).0

      past : s.next_seqno ≡ stream.total_read + 2 → e ≡ true
      past z = sym v.ended_is ∙ (v.done (omega (arith, r))).0

  -- What the application offers is taken up to the room in the stream.
  pub offer-Sends :
      (count : ℕ)
      → w + count < 2 ^ 31
      → Sends src isn w e edge held s
      → (w' : ℕ) × (w' ≤ w + count)
        × Later w e w' e
        × Sends src isn w' e edge held (offer src s count)
        × (s.stream.end ≡ false
            → length s.stream.buffer + count ≤ s.stream.capacity
            → w' ≡ w + count)
  offer-Sends count h v = elim (Bool-cases s.stream.end) [
    | inl z ↦ (
      w,
      omega arith,
      record { grows = omega arith; stays = λ y. (y, refl) },
      rw (offer_ended src s count z) v,
      λ o h. absurd (ground arith),
    )
    | inr z ↦ (
      w + k,
      omega (arith, length-slice src s.stream.written count),
      Later-put w k e (sym v.ended_is ∙ z),
      rw (offer_open src s count z v.inv.stream room) (
          restreamed-Sends (after_write s.stream bytes) v (Later-put w k e (sym v.ended_is ∙ z))
            (write-IsValid bytes v.inv.stream room) refl (omega (arith, v.written_is)) v.ended_is
            (ap (λ l. l ++ take k bytes) v.buffer
              ∙ ap (λ l. slice src s.stream.total_read (length s.stream.buffer) ++ l)
                  (take-slice src k s.stream.written count
                      (omega (arith, length-slice src s.stream.written count))
                    ∙ slice_cong src v.inv.stream.counted refl)
              ∙ slice-append src s.stream.total_read (length s.stream.buffer) k
              ∙ slice_cong src refl (
                  omega
                    (arith, length-append s.stream.buffer (take k bytes), length-take k bytes)))),
      λ o h. omega (arith, length-slice src s.stream.written count),
    )
  ]
    where
      bytes : List ℕ
      bytes = slice src s.stream.written count

      k : ℕ
      k = accepted s.stream bytes

      room : s.stream.written + k < 2 ^ 31
      room = omega (arith, length-slice src s.stream.written count, v.written_is)

  pub ended-Sends : Sends src isn w e edge held s → Sends src isn w true edge held (ended s)
  unfolding end_input
  ended-Sends v =
      restreamed-Sends (end_input s.stream) v
        (record { grows = omega arith; stays = λ z. (refl, refl) })
        (record {
          small = v.inv.stream.small;
          fits = v.inv.stream.fits;
          counted = v.inv.stream.counted;
          no_wrap = v.inv.stream.no_wrap;
        })
        refl v.written_is refl v.buffer

  Acked-Sends :
      (v : Sends src isn w e edge held s) (x win : ℕ) (s' : TcpSender)
      → Acked s v.base x win s'
      → 0 < x
      → x ≤ s.next_seqno
      → x + win ≤ edge + 1
      → x ≤ held
      → Sends src isn w e edge held s'
  Acked-Sends v x win s' a h k l o = record {
    base = (after_ack x v.base s.outstandings).0;
    inv = a.inv;
    isn_is = a.isn ∙ v.isn_is;
    written_is = ap (λ t. t.written) a.stream ∙ v.written_is;
    ended_is = ap (λ t. t.end) a.stream ∙ v.ended_is;
    edge_is = omega (arith, a.window_right, v.edge_is);
    held_is = omega (arith, a.base_ge, v.held_is);
    flow = ground (arith, a.window_right, a.next_seqno, a.probing, v.flow);
    opened = λ z. omega (arith, a.next_seqno);
    near = rw (a.stream, a.next_seqno) v.near;
    done = rw (a.stream, a.next_seqno) v.done;
    buffer = rw a.stream v.buffer;
    outstandings = rw a.outstandings (All-after_ack _ x v.base s.outstandings v.outstandings);
    segments_out = rw a.segments_out v.segments_out;
  }

  pub ack-Sends :
      (x win : ℕ)
      → Sends src isn w e edge held s
      → isn < big
      → 0 < x
      → x ≤ w + 2
      → w + 2 < 2 ^ 31
      → win < 2 ^ 16
      → x + win ≤ edge + 1
      → x ≤ held
      → Sends src isn w e edge held (ack_received s (wrap x isn) win)
  ack-Sends x win v i h k l m n o = elim (dec_le x s.next_seqno) [
    | yes seen ↦ Acked-Sends v x win _ (acks.1 seen) h seen (omega arith) o
    | no ahead ↦ rw (acks.0 (omega arith)) v
  ]
    where
      near : IsNear s x
      near = record {
        isn = rw v.isn_is i;
        close = omega (arith, v.inv.stream, v.written_is);
        sent = omega (arith, v.near);
        flight = omega (arith, v.near, v.inv.flight, v.inv.stream, v.written_is);
      }

      acks :
          (s.next_seqno < x → ack_received s (wrap x isn) win ≡ s)
          × (x ≤ s.next_seqno → Acked s v.base x win (ack_received s (wrap x isn) win))
      acks = rw (sym v.isn_is) (ack_received_lem s v.base x win v.inv near (omega arith) m)
