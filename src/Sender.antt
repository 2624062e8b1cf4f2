-- ===== src/Sender.antt =====
-- libsponge/tcp_sender.hh and tcp_sender.cc: the sending half of a TCP endpoint. The queues are
-- lists with the oldest segment first. unsigned int and uint64_t wrap.
pub mod Inv
pub mod Fill
pub mod Ack
pub mod Timer
pub mod Queue
use cs144_me.Prelude.{
  ℕ, zero, suc, ◌+◌, ◌-◌, ◌*◌, ◌%◌, ◌^◌, min, Bool, true, false, not, ◌&&◌, Option, none, some,
  List, [], ◌∷◌, ◌++◌, ltb, leb, ◌==◌, if◌then◌else◌,
}
use cs144_me.Prelude.Word.{add_size, sub_size, add_u32}
use cs144_me.Prelude.Result.{Result, ok, ◌>>=◌}
use cs144_me.ByteStream
use cs144_me.ByteStream.{ByteStream, bytes_written, bytes_read, eof, buffer_empty, read}
use cs144_me.Wrapping.{WrappingInt32, wrap, unwrap}
use cs144_me.Header.Tcp.{
  TcpHeader, TcpSegment, empty_header, empty_segment, length_in_sequence_space,
}

pub record TcpSender : Type 0 where
  pub isn : WrappingInt32
  pub segments_out : List TcpSegment
  pub initial_retransmission_timeout : ℕ
  pub stream : ByteStream
  pub next_seqno : ℕ
  pub outstandings : List TcpSegment
  pub in_flights : ℕ
  pub time_passed : ℕ
  pub rto : ℕ
  pub recount : ℕ
  pub window : ℕ
  pub window_right : ℕ
  pub last_ack : ℕ
  pub fin_sent : Bool
  pub probing : Bool

-- TCPConfig::MAX_PAYLOAD_SIZE
abbrev pub max_payload_size : ℕ
max_payload_size = 1000

-- `isn` is the fixed one, or what the random device gave.
unfoldable pub new : ℕ → ℕ → WrappingInt32 → TcpSender
new capacity retx_timeout isn = record {
  isn = isn;
  segments_out = [];
  initial_retransmission_timeout = retx_timeout;
  stream = ByteStream.new capacity;
  next_seqno = 0;
  outstandings = [];
  in_flights = 0;
  time_passed = 0;
  rto = retx_timeout;
  recount = 0;
  window = 1;
  window_right = 0;
  last_ack = 0;
  fin_sent = false;
  probing = false;
}

unfoldable pub bytes_in_flight : TcpSender → ℕ
bytes_in_flight s = s.in_flights

unfoldable pub consecutive_retransmissions : TcpSender → ℕ
consecutive_retransmissions s = s.recount

unfoldable pub next_seqno : TcpSender → WrappingInt32
next_seqno s = wrap s.next_seqno s.isn

-- A segment with the next sequence number, some flags and a payload.
abbrev pub segment_of : TcpSender → Bool → Bool → List ℕ → TcpSegment
segment_of s syn fin payload = record {
  header = record empty_header { seqno = next_seqno s; syn = syn; fin = fin };
  payload = payload;
}

-- `outstandings.push(seg); segments_out().push(seg);`
abbrev pub enqueue : TcpSender → TcpSegment → TcpSender
enqueue s seg = record s {
  outstandings = s.outstandings ++ (seg ∷ []);
  segments_out = s.segments_out ++ (seg ∷ []);
}

unfoldable pub send_empty_segment : TcpSender → TcpSender
send_empty_segment s = record s {
  segments_out = s.segments_out ++ (segment_of s false false [] ∷ []);
}

unfoldable pub send_empty_segment_rst : TcpSender → TcpSender
send_empty_segment_rst s = record s {
  segments_out =
      s.segments_out
      ++ (record { header = record empty_header { seqno = next_seqno s; rst = true }; payload = [] }
          ∷ []);
}

-- The end of send_one_byte_segment, once the segment is made.
abbrev pub send_one : TcpSender → TcpSegment → TcpSender
send_one s seg =
    enqueue
      (record s { next_seqno = add_size s.next_seqno 1; in_flights = add_size s.in_flights 1 }) seg

unfoldable pub send_one_byte_segment : TcpSender → Bool → Result TcpSender
send_one_byte_segment s true = ok (send_one s (segment_of s false true []))
send_one_byte_segment s false = do
  (bytes, stream) ← read s.stream 1
  ok (send_one (record s { stream = stream }) (segment_of s false false bytes))

unfoldable pub ready_to_fin : TcpSender → Bool
ready_to_fin s = eof s.stream && ltb s.next_seqno (add_size (bytes_written s.stream) 2)

-- The test that leaves the loop: nothing to send but in the first segment.
unfoldable pub nothing_to_send : TcpSender → Bool
nothing_to_send s = ltb 0 s.next_seqno && (buffer_empty s.stream && not (ready_to_fin s))

-- `dlen`: the room in the window, less the SYN, at most the maximal payload.
unfoldable pub payload_room : TcpSender → Bool → ℕ
payload_room s syn =
    min (add_size (sub_size (sub_size s.window_right (if syn then 1 else 0)) s.next_seqno) 1)
      max_payload_size

-- The rest of a round, once the payload is read: `next` counts the segment without a FIN.
unfoldable pub send_payload : TcpSender → Bool → List ℕ → ByteStream → TcpSender
send_payload s syn bytes stream =
    let plain : TcpSegment = segment_of s syn false bytes in
    let next : ℕ = add_size (length_in_sequence_space plain) s.next_seqno in
    let fin : Bool = eof stream && (leb next s.window_right && not s.fin_sent) in
    let seg : TcpSegment = segment_of s syn fin bytes in
    enqueue
      (record s {
        stream = stream;
        next_seqno = if fin then add_size next 1 else next;
        fin_sent = if fin then true else s.fin_sent;
        in_flights = add_size s.in_flights (length_in_sequence_space seg);
      })
      seg

-- One round of the loop of fill_window.
unfoldable pub send_next : TcpSender → Result TcpSender
send_next s = do
  let syn = s.next_seqno == 0
  (bytes, stream) ← read s.stream (payload_room s syn)
  ok (send_payload s syn bytes stream)

unfoldable pub fill_loop : ℕ → TcpSender → Result TcpSender
fill_loop zero s = ok s
fill_loop (suc fuel) s =
    let more = send_next s >>= λ s'. fill_loop fuel s' in
    if leb s.next_seqno s.window_right then if nothing_to_send s then ok s else more else ok s

-- The loop gets one round more than the room in the window.
abbrev pub fill_fuel : TcpSender → ℕ
fill_fuel s = suc (s.window_right + 1 - s.next_seqno)

unfoldable pub fill_window : TcpSender → Result TcpSender
fill_window s =
    if s.window == 0 && not s.probing
    then if not (buffer_empty s.stream)
      then send_one_byte_segment (record s { probing = true }) false
      else if ready_to_fin s
      then send_one_byte_segment (record s { probing = true }) true
      else fill_loop (fill_fuel s) s
    else fill_loop (fill_fuel s) s

-- The loop of ack_received: drops the segments that end before the acknowledged number.
unfoldable pub drop_acked :
    WrappingInt32 → ℕ → ℕ → List TcpSegment → ℕ → Bool → List TcpSegment × ℕ × Bool
drop_acked isn checkpoint ackabs [] in_flights rm = ([], in_flights, rm)
drop_acked isn checkpoint ackabs (seg ∷ segs) in_flights rm =
    let last : ℕ =
      sub_size (add_size (length_in_sequence_space seg) (unwrap seg.header.seqno isn checkpoint))
        1 in
    let rest =
      drop_acked isn checkpoint ackabs segs (sub_size in_flights (length_in_sequence_space seg))
        true in
    if ltb last ackabs then rest else (seg ∷ segs, in_flights, rm)

abbrev pub is_empty {ℓ} : {A : Type ℓ} → List A → Bool
is_empty [] = true
is_empty (x ∷ xs) = false

-- The body of ack_received, for an acknowledgment that is not ahead of what was sent.
unfoldable pub accept_ack : TcpSender → ℕ → ℕ → TcpSender
accept_ack s ackabs window_size =
    let right : ℕ = sub_size (add_size ackabs window_size) 1 in
    let window_move : Bool = ltb s.window_right right in
    let (outstandings, in_flights, rm) =
      drop_acked s.isn (bytes_read s.stream) ackabs s.outstandings s.in_flights false in
    record s {
      window = window_size;
      window_right = if window_move then right else s.window_right;
      outstandings = outstandings;
      in_flights = in_flights;
      probing = if window_move then false else s.probing;
      rto = if rm then s.initial_retransmission_timeout else s.rto;
      time_passed =
          if rm then if is_empty outstandings then s.time_passed else 0 else s.time_passed;
      recount = if rm then 0 else s.recount;
    }

unfoldable pub ack_received : TcpSender → WrappingInt32 → ℕ → TcpSender
ack_received s ackno window_size =
    let ackabs : ℕ = unwrap ackno s.isn (bytes_read s.stream) in
    if ltb s.next_seqno ackabs then s else accept_ack s ackabs window_size

-- The timer has run out: the oldest outstanding segment is sent again.
abbrev pub retransmit : TcpSender → TcpSegment → TcpSender
retransmit s seg = record s {
  segments_out = s.segments_out ++ (seg ∷ []);
  recount = if ltb 0 s.window then add_u32 s.recount 1 else s.recount;
  rto = if ltb 0 s.window then s.rto * 2 % 2 ^ 32 else s.rto;
  time_passed = 0;
}

unfoldable pub tick_queue : TcpSender → List TcpSegment → ℕ → TcpSender
tick_queue s [] ms = s
tick_queue s (seg ∷ segs) ms =
    let passed : ℕ = add_size ms s.time_passed in
    if leb s.rto passed
    then retransmit (record s { time_passed = passed }) seg
    else record s { time_passed = passed }

unfoldable pub tick : TcpSender → ℕ → TcpSender
tick s ms = tick_queue s s.outstandings ms
