-- ===== src/Channel/Probing.antt =====
-- fill_window of libsponge/tcp_sender.cc with a closed window: the probes carry the stream too.
use cs144_me.Prelude.{
  ℕ, ◌+◌, ◌%◌, ◌^◌, ◌≤◌, ◌<◌, ◌≡◌, inl, inr, refl, ap, sym, ◌∙◌, Bool, true, false, not, ◌&&◌, [],
  length, ◌==◌, arith, Bool-cases,
}
use cs144_me.Prelude.Result.{ok}
use cs144_me.ByteStream.{eof, buffer_empty, input_ended}
use cs144_me.ByteStream.Inv.{read_lem, bytes_written_lem}
use cs144_me.Wrapping.{WrappingInt32, wrap}
use cs144_me.Header.Tcp.{length_in_sequence_space}
use cs144_me.Sender.{
  TcpSender, next_seqno, segment_of, send_one, send_one_byte_segment, fill_fuel, fill_window,
  ready_to_fin,
}
use cs144_me.Sender.Inv.{Chain-snoc, sent, sent-Inv}
use cs144_me.Channel.Carry.{Carries, All-append}
use cs144_me.Channel.Filling.{Sends, sent-Sends, fill_loop-Sends, requeued-Sends}

probed_ready :
    (s : TcpSender) → ready_to_fin s ≡ true → ready_to_fin (record s { probing = true }) ≡ true
unfolding ready_to_fin
probed_ready s r = r

bytes_left : (s : TcpSender) → buffer_empty s.stream ≡ false → 0 < length s.stream.buffer
unfolding buffer_empty
bytes_left s h = ground arith

module _ {src : ℕ → ℕ} {isn : WrappingInt32} {w : ℕ} {e : Bool} {edge held : ℕ} where
  -- A probe with one byte is a round that reads one byte.
  probe_byte :
      {s : TcpSender}
      → Sends src isn w e edge held s
      → 0 < s.next_seqno
      → s.next_seqno ≤ s.window_right + 1
      → s.probing ≡ true
      → 0 < length s.stream.buffer
      → (s' : TcpSender) × (send_one_byte_segment s false ≡ ok s') × Sends src isn w e edge held s'
  unfolding send_one_byte_segment next_seqno
  probe_byte {s} v p right b l = (
    sent s (s.next_seqno == 0) false 1,
    rw (read_lem 1 v.inv.stream) (ground (arith, v.near, v.inv.flight, v.inv.stream)),
    sent-Sends v (ground (arith, v.near, v.done, v.written_is, v.inv.stream.counted)) false 1
        (sent-Inv v.inv 1 (omega arith) (omega (arith, v.near, v.inv.stream)) (s.next_seqno == 0)
          false refl (ground arith) (λ z. absurd (ground arith)))
        (λ z. absurd (ground arith)) (ground arith),
  )

  -- A probe with the FIN alone.
  probe_fin :
      {s : TcpSender}
      → Sends src isn w e edge held s
      → 0 < s.next_seqno
      → s.next_seqno ≤ s.window_right + 1
      → s.probing ≡ true
      → ready_to_fin s ≡ true
      → (s' : TcpSender) × (send_one_byte_segment s true ≡ ok s') × Sends src isn w e edge held s'
  unfolding send_one_byte_segment ready_to_fin eof input_ended next_seqno length_in_sequence_space
  probe_fin {s} v p right b r = (
    send_one s (segment_of s false true []),
    refl,
    record {
      base = v.base;
      inv = record {
        stream = v.inv.stream;
        chain =
            Chain-snoc s.isn v.base s.next_seqno _ s.outstandings _ v.inv.chain
              (refl, omega arith, omega arith, next);
        flight = omega (arith, v.inv.flight, next, at, v.inv.stream);
        unread = λ z. omega (arith, next);
        ahead = λ z. omega (arith, next, at);
        finished =
            λ z. (is_end, omega (arith, (v.inv.finished z).1, next, at, v.inv.stream.counted));
      };
      isn_is = v.isn_is;
      written_is = v.written_is;
      ended_is = v.ended_is;
      edge_is = v.edge_is;
      held_is = v.held_is;
      flow = ground (arith, next);
      opened = λ z. omega (arith, next);
      near = omega (arith, next, at);
      done = λ z. (is_end, omega (arith, nothing, v.inv.stream.counted, v.written_is));
      buffer = v.buffer;
      outstandings = All-append _ s.outstandings _ v.outstandings (c, tt);
      segments_out = All-append _ s.segments_out _ v.segments_out (c, tt);
    },
  )
    where
      is_end : s.stream.end ≡ true
      is_end = ground (arith, r)

      nothing : length s.stream.buffer ≡ 0
      nothing = ground (arith, r)

      at : s.next_seqno ≡ s.stream.total_read + 1
      at = ground (arith, r, v.near, v.inv.ahead, v.inv.stream, bytes_written_lem v.inv.stream)

      next : s.next_seqno + 1 ≡ (s.next_seqno + 1) % 2 ^ 64
      next = omega (arith, at, v.inv.stream)

      c : Carries src isn w e (segment_of s false true [])
      c = record {
        from = s.next_seqno;
        seqno = ap (λ i. wrap s.next_seqno i) v.isn_is;
        syn = ground arith;
        payload = refl;
        within = omega (arith, at, v.inv.stream.counted, v.written_is);
        fin = λ z. (
          sym v.ended_is ∙ is_end,
          omega (arith, at, nothing, v.inv.stream.counted, v.written_is),
        );
      }

  -- Whatever the window, fill_window throws nothing, and what it sends carries the stream.
  pub fill_window-Sends :
      {s : TcpSender}
      → Sends src isn w e edge held s
      → edge < 2 ^ 61
      → (s' : TcpSender) × (fill_window s ≡ ok s') × Sends src isn w e edge held s'
  unfolding fill_window
  fill_window-Sends {s} v b = elim (Bool-cases (s.window == 0 && not s.probing)) [
    | inl shut ↦ elim (Bool-cases (buffer_empty s.stream)) [
      | inl none_left ↦ elim (Bool-cases (ready_to_fin s)) [
        | inl r ↦
            rw (shut, none_left, r)
              (probe_fin (probed v) (started shut) (right shut) refl (probed_ready s r))
        | inr r ↦ rw (shut, none_left, r) (fill_loop-Sends (fill_fuel s) v b)
      ]
      | inr left ↦
          rw (shut, left)
            (probe_byte (probed v) (started shut) (right shut) refl (bytes_left s left))
    ]
    | inr open_window ↦ rw open_window (fill_loop-Sends (fill_fuel s) v b)
  ]
    where
      probed :
          Sends src isn w e edge held s → Sends src isn w e edge held (record s { probing = true })
      probed v =
          requeued-Sends s.segments_out s.time_passed s.rto s.recount true v v.segments_out
            (ground (arith, v.flow))

      right : (s.window == 0 && not s.probing) ≡ true → s.next_seqno ≤ s.window_right + 1
      right h = ground (arith, v.flow)

      started : (s.window == 0 && not s.probing) ≡ true → 0 < s.next_seqno
      started h = v.opened (ground arith)
