-- ===== src/Sender/Queue.antt =====
-- What fill_window and ack_received of libsponge/tcp_sender.cc do to the two queues of the sender.
use cs144_me.Prelude.{
  ℕ, zero, suc, ◌≡◌, refl, ap, sym, ◌∙◌, Bool, true, false, List, [], ◌∷◌, ◌++◌, append_assoc,
  append-nil, ltb, leb, ◌==◌, not, ◌&&◌,
}
use cs144_me.Prelude.Word.{sub_size}
use cs144_me.Prelude.Result.{ok, IfOk, IfOk-bind, IfOk-map, any_ok, if-both}
use cs144_me.ByteStream.{read, bytes_read, buffer_empty}
use cs144_me.Wrapping.{WrappingInt32, unwrap}
use cs144_me.Header.Tcp.{TcpSegment, length_in_sequence_space}
use cs144_me.Sender.{
  TcpSender, fill_window, fill_loop, fill_fuel, send_next, send_payload, payload_room,
  send_one_byte_segment, ready_to_fin, nothing_to_send, ack_received, accept_ack, drop_acked,
}

-- The sender has made some segments: they are at the end of both queues.
pub record Made (s s' : TcpSender) : Type 0 where
  pub new : List TcpSegment
  pub outstanding : s'.outstandings ≡ s.outstandings ++ new
  pub queued : s'.segments_out ≡ s.segments_out ++ new

Made-refl : (s : TcpSender) → Made s s
Made-refl s = record {
  new = [];
  outstanding = sym (append-nil s.outstandings);
  queued = sym (append-nil s.segments_out);
}

Made-trans : (a b c : TcpSender) → Made a b → Made b c → Made a c
Made-trans a b c p q = record {
  new = p.new ++ q.new;
  outstanding = q.outstanding ∙ rw p.outstanding (append_assoc a.outstandings p.new q.new);
  queued = q.queued ∙ rw p.queued (append_assoc a.segments_out p.new q.new);
}

send_one_byte_segment-Made :
    (s : TcpSender) (fin : Bool) → IfOk (Made s) (send_one_byte_segment s fin)
unfolding send_one_byte_segment
send_one_byte_segment-Made s true = record { new = _; outstanding = refl; queued = refl }
send_one_byte_segment-Made s false =
    IfOk-bind (λ x. Unit) (Made s) (read s.stream 1) _ (any_ok (read s.stream 1))
      (λ x u. record { new = _; outstanding = refl; queued = refl })

send_next-Made : (s : TcpSender) → IfOk (Made s) (send_next s)
unfolding send_next send_payload
send_next-Made s =
    IfOk-bind (λ x. Unit) (Made s) (read s.stream (payload_room s (s.next_seqno == 0))) _
      (any_ok (read s.stream (payload_room s (s.next_seqno == 0))))
      (λ x u. record { new = _; outstanding = refl; queued = refl })

fill_loop-Made : (fuel : ℕ) (s : TcpSender) → IfOk (Made s) (fill_loop fuel s)
unfolding fill_loop
fill_loop-Made zero s = Made-refl s
fill_loop-Made (suc fuel) s =
    if-both (IfOk (Made s)) (leb s.next_seqno s.window_right) _ (ok s)
      (if-both (IfOk (Made s)) (nothing_to_send s) (ok s) _ (Made-refl s) (
        IfOk-bind (Made s) (Made s) (send_next s) _ (send_next-Made s) (λ s' p.
          IfOk-map (Made s') (Made s) (fill_loop fuel s') (fill_loop-Made fuel s')
            (λ t q. Made-trans s s' t p q))))
      (Made-refl s)

pub fill_window-Made : (s : TcpSender) → IfOk (Made s) (fill_window s)
unfolding fill_window
fill_window-Made s =
    if-both (IfOk (Made s)) (s.window == 0 && not s.probing) _ (fill_loop (fill_fuel s) s)
      (if-both (IfOk (Made s)) (not (buffer_empty s.stream)) _ _ (probe false) (
        if-both (IfOk (Made s)) (ready_to_fin s) _ (fill_loop (fill_fuel s) s) (probe true)
          (fill_loop-Made (fill_fuel s) s)))
      (fill_loop-Made (fill_fuel s) s)
  where
    probe : (fin : Bool) → IfOk (Made s) (send_one_byte_segment (record s { probing = true }) fin)
    probe fin =
        IfOk-map (Made (record s { probing = true })) (Made s)
          (send_one_byte_segment (record s { probing = true }) fin)
          (send_one_byte_segment-Made (record s { probing = true }) fin)
          (λ t p. record { new = p.new; outstanding = p.outstanding; queued = p.queued })

drop_acked_rest :
    (isn : WrappingInt32) (checkpoint ackabs : ℕ) (segs : List TcpSegment) (in_flights : ℕ)
    (rm : Bool)
    → (gone : List TcpSegment) × (segs
        ≡ gone ++ (drop_acked isn checkpoint ackabs segs in_flights rm).0)
unfolding drop_acked
drop_acked_rest isn checkpoint ackabs [] in_flights rm = ([], refl)
drop_acked_rest isn checkpoint ackabs (seg ∷ segs) in_flights rm =
    let (gone, e) =
      drop_acked_rest isn checkpoint ackabs segs
        (sub_size in_flights (length_in_sequence_space seg)) true in
    if-both
      (λ (t : List TcpSegment × ℕ × Bool). (gone' : List TcpSegment) × (seg ∷ segs ≡ gone' ++ t.0))
      _ _ (seg ∷ segs, in_flights, rm) (seg ∷ gone, ap (λ l. seg ∷ l) e) ([], refl)

-- An acknowledgment takes segments off the front of those that are outstanding, and makes none.
pub record Dropped (s s' : TcpSender) : Type 0 where
  pub gone : List TcpSegment
  pub outstanding : s.outstandings ≡ gone ++ s'.outstandings
  pub queued : s'.segments_out ≡ s.segments_out

pub ack_received-Dropped :
    (s : TcpSender) (ackno : WrappingInt32) (window : ℕ) → Dropped s (ack_received s ackno window)
unfolding ack_received accept_ack
ack_received-Dropped s ackno window =
    let (gone, e) =
      drop_acked_rest s.isn (bytes_read s.stream) (unwrap ackno s.isn (bytes_read s.stream))
        s.outstandings s.in_flights false in
    if-both (Dropped s) (ltb s.next_seqno (unwrap ackno s.isn (bytes_read s.stream))) s
      (accept_ack s (unwrap ackno s.isn (bytes_read s.stream)) window)
      (record { gone = []; outstanding = refl; queued = refl })
      (record { gone = gone; outstanding = e; queued = refl })
