-- ===== src/Sender/Inv.antt =====
-- The well-formed states of TCPSender of libsponge/tcp_sender.cc, and what one segment sent changes.
use cs144_me.Prelude.{
  ℕ, ◌+◌, ◌^◌, ◌≤◌, ◌<◌, ◌≡◌, refl, Bool, true, false, not, ◌&&◌, ◌||◌, List, [], ◌∷◌, ◌++◌, length,
  take, length-take, length-drop, leb, ◌==◌, if◌then◌else◌, arith,
}
use cs144_me.ByteStream
use cs144_me.ByteStream.{ByteStream, bytes_written, eof, buffer_empty, read, input_ended}
use cs144_me.ByteStream.Inv.{IsValid, available, after_pop, pop-IsValid, new-IsValid}
use cs144_me.Wrapping.{WrappingInt32, wrap}
use cs144_me.Header.Tcp.{TcpSegment, length_in_sequence_space}
use cs144_me.Sender.{TcpSender, new, max_payload_size, next_seqno, segment_of, send_payload}

-- The segments carry, in order and without a gap, the sequence numbers from `from` up to `to`.
-- None is empty, and none carries more than the maximal payload.
abbrev pub Chain : WrappingInt32 → ℕ → List TcpSegment → ℕ → Type 0
Chain isn from [] to = from ≡ to
Chain isn from (seg ∷ segs) to =
    (seg.header.seqno ≡ wrap from isn)
    × (0 < length_in_sequence_space seg)
    × (length seg.payload ≤ max_payload_size)
    × Chain isn (from + length_in_sequence_space seg) segs to

pub Chain-snoc :
    (isn from to to' : ℕ) (segs : List TcpSegment) (seg : TcpSegment)
    → Chain isn from segs to
    → Chain isn to (seg ∷ []) to'
    → Chain isn from (segs ++ (seg ∷ [])) to'
Chain-snoc isn from to to' [] seg c d = rw c d
Chain-snoc isn from to to' (s ∷ segs) seg c d =
    (c.0, c.1, c.2, Chain-snoc isn (from + length_in_sequence_space s) to to' segs seg c.3 d)

-- The invariant of a sender whose first unacknowledged sequence number is `base`.
pub record Inv (s : TcpSender) (base : ℕ) : Type 0 where
  pub stream : IsValid s.stream
  pub chain : Chain s.isn base s.outstandings s.next_seqno
  pub flight : base + s.in_flights ≡ s.next_seqno
  pub unread : s.next_seqno ≡ 0 → s.stream.total_read ≡ 0
  pub ahead : 0 < s.next_seqno → s.stream.total_read + 1 ≤ s.next_seqno
  pub finished : s.fin_sent ≡ true → (s.stream.end ≡ true) × (s.stream.written + 2 ≤ s.next_seqno)

pub new-Inv : (cp timeout isn : ℕ) → cp < 2 ^ 31 → Inv (new cp timeout isn) 0
unfolding new ByteStream.new
new-Inv cp timeout isn h = record {
  stream = new-IsValid cp h;
  chain = refl;
  flight = refl;
  unread = λ e. refl;
  ahead = λ l. absurd (omega arith);
  finished = λ e. absurd (ground arith);
}

abbrev pub space : Bool → ℕ
space b = if b then 1 else 0

-- The sequence numbers that a round takes.
abbrev pub spent : TcpSender → Bool → Bool → ℕ → ℕ
spent s syn fin n = available s.stream n + space syn + space fin

-- The state after a round that read up to `n` bytes, from its flags.
abbrev pub sent : TcpSender → Bool → Bool → ℕ → TcpSender
sent s syn fin n = record s {
  stream = after_pop s.stream (available s.stream n);
  next_seqno = s.next_seqno + spent s syn fin n;
  fin_sent = fin || s.fin_sent;
  in_flights = s.in_flights + spent s syn fin n;
  outstandings =
      s.outstandings ++ (segment_of s syn fin (take (available s.stream n) s.stream.buffer) ∷ []);
  segments_out =
      s.segments_out ++ (segment_of s syn fin (take (available s.stream n) s.stream.buffer) ∷ []);
}

length_sent :
    (s : TcpSender) (syn fin : Bool) (n : ℕ)
    → length_in_sequence_space (segment_of s syn fin (take (available s.stream n) s.stream.buffer))
      ≡ spent s syn fin n
unfolding length_in_sequence_space
length_sent s syn fin n = omega (arith, length-take (available s.stream n) s.stream.buffer)

-- Whether a round sends the FIN.
abbrev pub with_fin : TcpSender → Bool → ℕ → Bool
with_fin s syn n =
    (s.stream.end && (length s.stream.buffer == available s.stream n))
    && (leb (s.next_seqno + spent s syn false n) s.window_right && not s.fin_sent)

module _ {s : TcpSender} {base : ℕ} (v : Inv s base) (n : ℕ) (room : n ≤ max_payload_size)
    (small : s.next_seqno < 2 ^ 62) where
  eof_lem :
      eof (after_pop s.stream (available s.stream n))
      ≡ (s.stream.end && (length s.stream.buffer == available s.stream n))
  unfolding eof input_ended
  eof_lem = ground (arith, length-drop (available s.stream n) s.stream.buffer)

  pub send_payload_lem :
      (syn : Bool)
      → send_payload s syn
          (take (available s.stream n) s.stream.buffer)
          (after_pop s.stream (available s.stream n))
        ≡ sent s syn (with_fin s syn n) n
  unfolding send_payload
  send_payload_lem syn =
      ground (arith, eof_lem, length_sent s syn false n, length_sent s syn true n, v.flight)

  pub sent-Inv :
      (syn fin : Bool)
      → (syn ≡ (s.next_seqno == 0))
      → 0 < spent s syn fin n
      → (fin ≡ true → (s.stream.end ≡ true) × (length s.stream.buffer ≡ available s.stream n))
      → Inv (sent s syn fin n) base
  unfolding wrap next_seqno
  sent-Inv syn fin e p f = record {
    stream = pop-IsValid (available s.stream n) v.stream (omega arith);
    chain = Chain-snoc s.isn base s.next_seqno _ s.outstandings _ v.chain (
      refl,
      rw (length_sent s syn fin n) p,
      omega (arith, length-take (available s.stream n) s.stream.buffer),
      rw (length_sent s syn fin n) refl,
    );
    flight = omega (arith, v.flight);
    unread = λ z. omega (arith, p);
    ahead = λ l. ground (arith, v.ahead, v.unread);
    finished = λ z. ground (arith, v.ahead, v.unread, v.finished, f, v.stream.counted);
  }
