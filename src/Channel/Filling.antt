-- ===== src/Channel/Filling.antt =====
-- fill_window of libsponge/tcp_sender.cc: the segments it makes carry the stream.
use cs144_me.Prelude.{
  ℕ, zero, suc, ◌+◌, ◌-◌, ◌^◌, ◌≤◌, ◌<◌, ◌≡◌, inl, inr, refl, ap, sym, ◌∙◌, Bool, true, false, List,
  length, take, length-take, length-drop, leb, ◌==◌, arith, Bool-cases, leb→le, leb_false→lt,
}
use cs144_me.Prelude.Result.{ok}
use cs144_me.ByteStream.{eof, buffer_empty, input_ended}
use cs144_me.ByteStream.Inv.{available, bytes_written_lem}
use cs144_me.Wrapping.{WrappingInt32, wrap}
use cs144_me.Header.Tcp.{TcpSegment}
use cs144_me.Reassembler.Slice.{slice, slice_cong, take_run, drop_run}
use cs144_me.Sender.{TcpSender, next_seqno, segment_of, fill_loop, ready_to_fin, nothing_to_send}
use cs144_me.Sender.Inv.{spent, space, Inv, sent, with_fin}
use cs144_me.Sender.Fill.{
  bounded, fill_loop_done, fill_loop_more, send_next_lem, after, after-Inv, room, syn,
}
use cs144_me.Channel.Carry.{Carries, All, All-append}

-- A sender that has read its stream up to the last number that it sent, whose segments carry that
-- stream. `written` and `ended` are those of the stream, `edge` bounds the window, and
-- `held` the first number that is not acknowledged.
pub record Sends (src : ℕ → ℕ) (isn : WrappingInt32) (written : ℕ) (ended : Bool) (edge held : ℕ)
    (s : TcpSender) : Type 0 where
  pub base : ℕ
  pub inv : Inv s base
  pub isn_is : s.isn ≡ isn
  pub written_is : s.stream.written ≡ written
  pub ended_is : s.stream.end ≡ ended
  pub edge_is : s.window_right ≤ edge
  pub held_is : base ≤ held
  pub flow : s.next_seqno ≤ s.window_right + 1 + space s.probing
  pub opened : s.window ≡ 0 → 0 < s.next_seqno
  pub near : s.next_seqno ≤ s.stream.total_read + 2
  pub done :
      s.next_seqno ≡ s.stream.total_read + 2
      → (s.stream.end ≡ true) × (s.stream.total_read ≡ written)
  pub buffer : s.stream.buffer ≡ slice src s.stream.total_read (length s.stream.buffer)
  pub outstandings : All (Carries src isn written ended) s.outstandings
  pub segments_out : All (Carries src isn written ended) s.segments_out

module _ {src : ℕ → ℕ} {isn : WrappingInt32} {w : ℕ} {e : Bool} {edge held : ℕ} where
  -- The segment of a round, before the FIN is sent.
  pub segment-Carries :
      {s : TcpSender}
      → Sends src isn w e edge held s
      → s.next_seqno ≤ s.stream.total_read + 1
      → (fin : Bool) (k : ℕ) (payload : List ℕ) → k ≤ length s.stream.buffer
      → payload ≡ take k s.stream.buffer
      → (fin ≡ true → (e ≡ true) × (k ≡ length s.stream.buffer))
      → Carries src isn w e (segment_of s (s.next_seqno == 0) fin payload)
  unfolding next_seqno
  segment-Carries {s} v n fin k payload h p f = record {
    from = s.next_seqno;
    seqno = ap (λ i. wrap s.next_seqno i) v.isn_is;
    syn = refl;
    payload =
        p
        ∙ take_run src s.stream.buffer s.stream.total_read (length s.stream.buffer) k k v.buffer h
            refl
        ∙ slice_cong src at (sym size);
    within = omega (arith, at, size, v.inv.stream.counted, v.written_is);
    fin = λ z. ((f z).0, omega (arith, at, size, v.inv.stream.counted, v.written_is, (f z).1));
  }
    where
      at : s.stream.total_read ≡ s.next_seqno - 1
      at = ground (arith, v.inv.unread, v.inv.ahead)

      size : length payload ≡ k
      size = ap length p ∙ (ground (arith, length-take k s.stream.buffer))

  -- A round before the FIN is sent.
  pub sent-Sends :
      {s : TcpSender} (v : Sends src isn w e edge held s)
      → s.next_seqno ≤ s.stream.total_read + 1
      → (fin : Bool) (n : ℕ) → Inv (sent s (s.next_seqno == 0) fin n) v.base
      → (fin ≡ true → (s.stream.end ≡ true) × (length s.stream.buffer ≡ available s.stream n))
      → s.next_seqno + spent s (s.next_seqno == 0) fin n ≤ s.window_right + 1 + space s.probing
      → Sends src isn w e edge held (sent s (s.next_seqno == 0) fin n)
  sent-Sends {s} v h fin n i f l = record {
    base = v.base;
    inv = i;
    isn_is = v.isn_is;
    written_is = v.written_is;
    ended_is = v.ended_is;
    edge_is = v.edge_is;
    held_is = v.held_is;
    flow = l;
    opened = λ z. omega (arith, v.opened z);
    near = ground (arith, v.inv.unread, v.inv.ahead);
    done = λ z. ground (arith, v.inv.unread, v.inv.ahead, f, v.inv.stream.counted, v.written_is);
    buffer =
        drop_run src s.stream.buffer s.stream.total_read (length s.stream.buffer) k _ _ v.buffer
          (omega arith) refl (length-drop k s.stream.buffer);
    outstandings = All-append _ s.outstandings _ v.outstandings (c, tt);
    segments_out = All-append _ s.segments_out _ v.segments_out (c, tt);
  }
    where
      k : ℕ
      k = available s.stream n

      c : Carries src isn w e (segment_of s (s.next_seqno == 0) fin (take k s.stream.buffer))
      c =
          segment-Carries v h fin k (take k s.stream.buffer) (omega arith) refl
            (λ z. (sym v.ended_is ∙ (f z).0, sym (f z).1))

  -- While something is left to send, the FIN is not yet sent.
  before_fin :
      {s : TcpSender}
      → Sends src isn w e edge held s
      → nothing_to_send s ≡ false
      → s.next_seqno ≤ s.stream.total_read + 1
  unfolding nothing_to_send ready_to_fin buffer_empty eof input_ended
  before_fin {s} v m =
      ground (arith, v.near, v.done, v.written_is, bytes_written_lem v.inv.stream, v.inv.stream)

  after-Sends :
      {s : TcpSender} (v : Sends src isn w e edge held s)
      → (o : s.next_seqno ≤ s.window_right) → (small : s.window_right < 2 ^ 61)
      → (m : nothing_to_send s ≡ false) → Sends src isn w e edge held (after v.inv o small m)
  after-Sends {s} v o small m =
      sent-Sends v (before_fin v m) (with_fin s (syn v.inv o small m) (room v.inv o small m))
        (room v.inv o small m) (after-Inv v.inv o small m) (λ z. ground arith)
        (omega (arith, bounded v.inv o small m))

  pub fill_loop-Sends :
      (fuel : ℕ) {s : TcpSender}
      → Sends src isn w e edge held s
      → edge < 2 ^ 61
      → (s' : TcpSender) × (fill_loop fuel s ≡ ok s') × Sends src isn w e edge held s'
  unfolding fill_loop
  fill_loop-Sends zero {s} v b = (s, refl, v)
  fill_loop-Sends (suc fuel) {s} v b = elim (Bool-cases (leb s.next_seqno s.window_right)) [
    | inl o ↦ elim (Bool-cases (nothing_to_send s)) [
      | inl d ↦ (s, fill_loop_done fuel s (inr d), v)
      | inr m ↦
          let small : s.window_right < 2 ^ 61 = omega (arith, v.edge_is) in
          let open_window = leb→le s.next_seqno s.window_right o in
          let (s', q, u) = fill_loop-Sends fuel (after-Sends v open_window small m) b in
          (s', fill_loop_more fuel s _ o m (send_next_lem v.inv open_window small m) ∙ q, u)
    ]
    | inr c ↦ (s, fill_loop_done fuel s (inl (leb_false→lt s.next_seqno s.window_right c)), v)
  ]

  -- The fields that a change of the queue and of the timer leaves.
  pub requeued-Sends :
      {s : TcpSender} (out : List TcpSegment) (time_passed rto recount : ℕ) (probing : Bool)
      → Sends src isn w e edge held s
      → All (Carries src isn w e) out
      → s.next_seqno ≤ s.window_right + 1 + space probing
      → Sends src isn w e edge held (record s {
        segments_out = out;
        time_passed = time_passed;
        rto = rto;
        recount = recount;
        probing = probing;
      })
  requeued-Sends out time_passed rto recount probing v c l = record {
    base = v.base;
    inv = record {
      stream = v.inv.stream;
      chain = v.inv.chain;
      flight = v.inv.flight;
      unread = v.inv.unread;
      ahead = v.inv.ahead;
      finished = v.inv.finished;
    };
    isn_is = v.isn_is;
    written_is = v.written_is;
    ended_is = v.ended_is;
    edge_is = v.edge_is;
    held_is = v.held_is;
    flow = l;
    opened = v.opened;
    near = v.near;
    done = v.done;
    buffer = v.buffer;
    outstandings = v.outstandings;
    segments_out = c;
  }

  pub widen-Sends :
      {s : TcpSender} {edge' held' : ℕ}
      → edge ≤ edge'
      → held ≤ held'
      → Sends src isn w e edge held s
      → Sends src isn w e edge' held' s
  widen-Sends h k v = record {
    base = v.base;
    inv = v.inv;
    isn_is = v.isn_is;
    written_is = v.written_is;
    ended_is = v.ended_is;
    edge_is = omega (arith, v.edge_is);
    held_is = omega (arith, v.held_is);
    flow = v.flow;
    opened = v.opened;
    near = v.near;
    done = v.done;
    buffer = v.buffer;
    outstandings = v.outstandings;
    segments_out = v.segments_out;
  }
