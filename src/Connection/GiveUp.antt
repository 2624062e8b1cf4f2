-- ===== src/Connection/GiveUp.antt =====
-- tick of libsponge/tcp_connection.cc while the peer answers nothing: what is sent again, and the
-- reset after too many times.
use cs144_me.Prelude.{
  ℕ, ◌+◌, ◌*◌, ◌^◌, ◌≤◌, ◌<◌, ◌≡◌, ◌∙◌, ap, refl, true, false, List, [], ◌∷◌, ◌++◌, length,
  replicate, ltb, if◌then◌else◌, arith, append-nil, append_assoc,
}
use cs144_me.Prelude.Word.{add_size}
use cs144_me.Header.Tcp.{TcpSegment, empty_header}
use cs144_me.ByteStream
use cs144_me.Receiver
use cs144_me.Receiver.{window_size}
use cs144_me.Sender
use cs144_me.Sender.{TcpSender}
use cs144_me.Sender.Timer.{AllLate, fired, tick_late, double_first, le_doubled}
use cs144_me.TcpState
use cs144_me.TcpState.{State, of_state, of_parts}
use cs144_me.Connection.{
  TcpConnection, state, tick, seg_2_seg, stamp, is_done, give_up, max_retx_attempts,
}
use cs144_me.Connection.Linger.{ticks}

-- A segment with the acknowledgment of the receiver.
abbrev pub stamped : TcpConnection → TcpSegment → TcpSegment
stamped c seg = stamp (Receiver.ackno c.receiver) (window_size c.receiver) seg

-- The reset that the sender makes.
abbrev pub rst_segment : TcpSender → TcpSegment
rst_segment s = record {
  header = record empty_header { seqno = Sender.next_seqno s; rst = true };
  payload = [];
}

-- An end that has sent some segments again: the count, the timeout, the time since, what is queued,
-- and the time since the last segment came.
abbrev persisting : TcpConnection → ℕ → ℕ → ℕ → List TcpSegment → ℕ → TcpConnection
persisting c recount rto passed out since = record c {
  sender = record (c.sender) {
    segments_out = [];
    recount = recount;
    rto = rto;
    time_passed = passed;
  };
  segments_out = out;
  time_since_last_segment_received = since;
}

not_time_wait :
    (c : TcpConnection)
    → 0 < c.sender.in_flights
    → TcpState.equal (of_parts c.sender c.receiver c.active c.linger) (of_state State.time_wait)
      ≡ false
unfolding TcpState.equal of_parts TcpState.sender_summary of_state TcpState.same_sender
    Sender.bytes_in_flight
not_time_wait c h = ground arith

not_done : (c : TcpConnection) → 0 < c.sender.in_flights → is_done c ≡ false
unfolding is_done Sender.bytes_in_flight
not_done c h = ground arith

state-give_up : (c : TcpConnection) → state (give_up c) ≡ of_state State.reset
unfolding give_up state seg_2_seg of_parts of_state TcpState.sender_summary
    TcpState.receiver_summary ByteStream.error ByteStream.set_error
state-give_up c = refl

give_up-reset :
    (c : TcpConnection) → (give_up c).segments_out ≡ stamped c (rst_segment c.sender) ∷ []
unfolding give_up seg_2_seg Sender.send_empty_segment_rst Sender.next_seqno
give_up-reset c = refl

-- The end at the timeout, before its segments are moved.
abbrev timed : TcpConnection → TcpSegment → ℕ → TcpConnection
timed c seg ms = record c {
  sender = fired c.sender seg;
  time_since_last_segment_received = add_size c.time_since_last_segment_received ms;
}

module _ (c : TcpConnection) (seg : TcpSegment) (segs : List TcpSegment) (ms : ℕ)
    (outstanding : c.sender.outstandings ≡ seg ∷ segs) (room : 0 < c.sender.window)
    (flight : 0 < c.sender.in_flights) (active : c.active ≡ true)
    (quiet : c.sender.segments_out ≡ []) (passed : c.sender.time_passed < 2 ^ 62)
    (small : c.sender.recount + 1 < 2 ^ 32) (timeout : c.sender.rto * 2 < 2 ^ 32)
    (late : c.sender.rto ≤ ms) (soon : ms < 2 ^ 62) where
  tick_late_or_give_up : tick c ms ≡ (
      if ltb max_retx_attempts (c.sender.recount + 1)
      then give_up (timed c seg ms)
      else seg_2_seg (timed c seg ms))
  unfolding tick state Sender.consecutive_retransmissions seg_2_seg
  tick_late_or_give_up =
      rw
        (
          tick_late c.sender seg segs ms outstanding room passed timeout small late soon,
          not_time_wait (timed c seg ms) flight,
          not_done (seg_2_seg (timed c seg ms)) flight,
        )
        (rw active refl)

  tick_resend :
      c.sender.recount < 8
      → tick c ms
        ≡ persisting c
            (c.sender.recount + 1)
            (c.sender.rto * 2)
            0
            (c.segments_out ++ (stamped c seg ∷ []))
            (add_size c.time_since_last_segment_received ms)
  unfolding seg_2_seg
  tick_resend k = rw (tick_late_or_give_up, quiet) (ground arith)

  tick_reset :
      c.sender.recount ≡ 8
      → (state (tick c ms) ≡ of_state State.reset)
        × ((tick c ms).segments_out ≡ stamped c (rst_segment c.sender) ∷ [])
  unfolding Sender.next_seqno
  tick_reset k =
      let over : ltb max_retx_attempts (c.sender.recount + 1) ≡ true = ground (arith, k) in
      rw (tick_late_or_give_up, over)
        (state-give_up (timed c seg ms), give_up-reset (timed c seg ms))

start_persisting :
    (c : TcpConnection)
    → c.sender.segments_out ≡ []
    → c
      ≡ persisting c
          (c.sender.recount + 0)
          (c.sender.rto * 2 ^ 0)
          c.sender.time_passed
          (c.segments_out ++ [])
          c.time_since_last_segment_received
start_persisting c e =
    let count : c.sender.recount + 0 ≡ c.sender.recount = omega arith in
    let timeout : c.sender.rto * 2 ^ 0 ≡ c.sender.rto = omega arith in
    rw (count, timeout, append-nil c.segments_out)
      (ap (λ out. record c { sender = record (c.sender) { segments_out = out } }) e)

-- Ticks that each pass the current timeout, and do not count up to more than eight.
ticks_persist :
    (c : TcpConnection) (seg : TcpSegment) (segs : List TcpSegment) (times : List ℕ)
    → c.sender.outstandings ≡ seg ∷ segs
    → 0 < c.sender.window
    → 0 < c.sender.in_flights
    → c.active ≡ true
    → c.sender.segments_out ≡ []
    → c.sender.time_passed < 2 ^ 62
    → c.sender.rto * 2 ^ length times < 2 ^ 32
    → c.sender.recount + length times ≤ 8
    → AllLate c.sender.rto times
    → (passed : ℕ) × (since : ℕ) × (passed < 2 ^ 62)
      × (ticks c times
          ≡ persisting c
              (c.sender.recount + length times)
              (c.sender.rto * 2 ^ length times)
              passed
              (c.segments_out ++ replicate (length times) (stamped c seg))
              since)
unfolding ticks
ticks_persist c seg segs [] o w f a q p t n l =
    (c.sender.time_passed, c.time_since_last_segment_received, p, start_persisting c q)
ticks_persist c seg segs (ms ∷ times) o w f a q p t n l =
    let c1 =
      persisting c (c.sender.recount + 1) (c.sender.rto * 2) 0
        (c.segments_out ++ (stamped c seg ∷ [])) (add_size c.time_since_last_segment_received ms) in
    let (passed, since, small, ih) =
      ticks_persist c1 seg segs times o w f a refl (omega arith)
        (omega (arith, double_first c.sender.rto (length times))) (omega arith) l.2 in
    let count : c.sender.recount + length (ms ∷ times) ≡ c.sender.recount + 1 + length times =
      omega arith in
    (
      passed,
      since,
      small,
      rw
          (
            ticks,
            tick_resend c seg segs ms o w f a q p (omega arith)
                (omega (
                  arith,
                  double_first c.sender.rto (length times),
                  le_doubled (c.sender.rto * 2) (length times),
                ))
                l.0 l.1 (omega arith),
            ih,
            count,
            double_first c.sender.rto (length times),
            append_assoc,
          )
          refl,
    )

-- An active connection that is not answered: its sender has sent `seg` and perhaps more, none of it
-- sent again yet, with an open window and nothing left for the connection to move; its timeout is
-- below 2 ^ 23 ms and no time reaches 2 ^ 62. Eight calls that each pass the timeout, which doubles
-- each time, send `seg` eight times and leave the connection active; the next one that does leads to
-- RESET and leaves one segment to send, with the flag RST and the sender's next number.
pub ticks-reset :
    (c : TcpConnection) (seg : TcpSegment) (segs : List TcpSegment) (times : List ℕ) (ms : ℕ)
    → c.sender.outstandings ≡ seg ∷ segs
    → 0 < c.sender.window
    → 0 < c.sender.in_flights
    → c.active ≡ true
    → c.sender.segments_out ≡ []
    → c.sender.recount ≡ 0
    → c.sender.time_passed < 2 ^ 62
    → c.sender.rto < 2 ^ 23
    → length times ≡ 8
    → AllLate c.sender.rto times
    → c.sender.rto * 2 ^ 8 ≤ ms
    → ms < 2 ^ 62
    → ((ticks c times).segments_out ≡ c.segments_out ++ replicate 8 (stamped c seg))
      × ((ticks c times).active ≡ true)
      × (state (tick (ticks c times) ms) ≡ of_state State.reset)
      × ((tick (ticks c times) ms).segments_out ≡ stamped c (rst_segment c.sender) ∷ [])
unfolding Sender.next_seqno
ticks-reset c seg segs times ms o w f a q r p t n l late soon =
    let (passed, since, small, e) =
      ticks_persist c seg segs times o w f a q p (rw n (omega arith)) (omega (arith, r, n)) l in
    let count : c.sender.recount + length times ≡ 8 = omega (arith, r, n) in
    let d =
      persisting c 8 (c.sender.rto * 2 ^ 8) passed (c.segments_out ++ replicate 8 (stamped c seg))
        since in
    let after : ticks c times ≡ d = e ∙ rw (count, n) refl in
    let reset =
      tick_reset d seg segs ms o w f a refl small (omega arith) (omega arith) late soon refl in
    rw after (refl, a, reset.0, reset.1)
