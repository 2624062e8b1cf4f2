-- ===== src/Receiver/Place.antt =====
-- libsponge/tcp_receiver.cc: where the payload of a segment goes in the stream, and what the
-- receiver acknowledges.
use cs144_me.Prelude.{
  ℕ, ◌+◌, ◌^◌, ◌≤◌, ◌<◌, ◌≡◌, refl, ◌∙◌, Bool, true, false, some, length, if◌then◌else◌, arith,
}
use cs144_me.Prelude.Result.{ok}
use cs144_me.ByteStream.{bytes_written, input_ended}
use cs144_me.ByteStream.Inv.{IsValid, bytes_written_lem}
use cs144_me.Wrapping.{wrap, unwrap, big}
use cs144_me.Wrapping.Closest.{unwrap-wrap, gap}
use cs144_me.Header.Tcp.{TcpSegment}
use cs144_me.Reassembler.Trim.{Inv, window}
use cs144_me.Reassembler.Slice.{slice}
use cs144_me.Reassembler.Substring.{AfterPush, push_substring_lem}
use cs144_me.Receiver.{TcpReceiver, segment_received, push_payload, receive_at, ackno, stream_out}

-- Once the SYN is seen, a segment without SYN whose first byte is byte `x` of the stream, sent with
-- its 32-bit sequence number, is pushed to the reassembler at `x`, if `x + 1` is less than 2 ^ 31
-- away from the number of bytes written.
pub segment_received-place :
    (r : TcpReceiver) (seg : TcpSegment) (x : ℕ)
    → r.syned ≡ true
    → seg.header.syn ≡ false
    → seg.header.seqno ≡ wrap (x + 1) r.isn
    → r.isn < big
    → IsValid (stream_out r)
    → gap (x + 1) (stream_out r).written < 2 ^ 31
    → segment_received r seg ≡ push_payload r seg x
unfolding segment_received receive_at
segment_received-place r seg x s n e i v g = rw (s, n, e, u) (ground arith)
  where
    u : unwrap (wrap (x + 1) r.isn) r.isn (bytes_written (stream_out r)) ≡ x + 1
    u = rw (bytes_written_lem v) (
        unwrap-wrap (x + 1) r.isn (stream_out r).written i (omega (arith, v.no_wrap))
          (omega (arith, v.no_wrap)) g)

-- The number that the receiver asks for next.
abbrev pub expected : TcpReceiver → ℕ
expected r = (stream_out r).written + 1 + (if (stream_out r).end then 1 else 0)

-- The number up to which the receiver has the stream, with its SYN and FIN.
abbrev pub got : TcpReceiver → ℕ
got r = if r.syned then expected r else 0

pub ackno_lem :
    (r : TcpReceiver)
    → r.syned ≡ true
    → IsValid (stream_out r)
    → ackno r ≡ some (wrap (expected r) r.isn)
unfolding ackno input_ended
ackno_lem r s v = rw s (ground (arith, bytes_written_lem v))

-- What a segment with a part of the stream makes of the receiver.
pub record Received (src : ℕ → ℕ) (r : TcpReceiver) (x n : ℕ) (eof : Bool) (r' : TcpReceiver)
    : Type 0 where
  pub push : AfterPush src r.reassembler x n eof r'.reassembler
  pub ackno : ackno r' ≡ some (wrap (expected r') r.isn)
  pub syned : r'.syned ≡ true
  pub isn : r'.isn ≡ r.isn

pub got-le-expected : (r : TcpReceiver) → got r ≤ expected r
got-le-expected r = ground arith

-- What was received is not lost.
pub Received-got :
    {src : ℕ → ℕ} {r : TcpReceiver} {x n : ℕ} {eof : Bool} {r' : TcpReceiver}
    → Received src r x n eof r'
    → expected r ≤ got r'
Received-got a = ground (arith, a.push.grows, a.push.ended, a.syned)

pub push_payload_lem :
    (src : ℕ → ℕ) (r : TcpReceiver) (seg : TcpSegment) (x : ℕ)
    → r.syned ≡ true
    → Inv src r.reassembler
    → seg.payload ≡ slice src x (length seg.payload)
    → x + length seg.payload ≤ window r.reassembler + 2 ^ 31
    → (r' : TcpReceiver) × (push_payload r seg x ≡ ok r')
      × Received src r x (length seg.payload) seg.header.fin r'
unfolding push_payload
push_payload_lem src r seg x s v e h =
    let (a, q, p) = push_substring_lem src r.reassembler seg.payload x seg.header.fin v e h in
    (
      record r { reassembler = a },
      rw q refl,
      record {
        push = p;
        ackno = ackno_lem (record r { reassembler = a }) s p.inv.output.valid;
        syned = s;
        isn = refl;
      },
    )

-- Take a receiver that has seen the SYN and keeps only bytes of a stream, and a segment without SYN
-- that carries a part of that stream from byte `x` on, with the number of that byte; `x + 1` is less
-- than 2 ^ 31 away from the bytes written. segment_received throws nothing, keeps exactly the part
-- inside the window, and then acknowledges the number after the bytes written, and after the FIN
-- once the stream is ended.
pub segment_received_lem :
    (src : ℕ → ℕ) (r : TcpReceiver) (seg : TcpSegment) (x : ℕ)
    → r.syned ≡ true
    → seg.header.syn ≡ false
    → seg.header.seqno ≡ wrap (x + 1) r.isn
    → r.isn < big
    → gap (x + 1) (stream_out r).written < 2 ^ 31
    → Inv src r.reassembler
    → seg.payload ≡ slice src x (length seg.payload)
    → x + length seg.payload ≤ window r.reassembler + 2 ^ 31
    → (r' : TcpReceiver) × (segment_received r seg ≡ ok r')
      × Received src r x (length seg.payload) seg.header.fin r'
segment_received_lem src r seg x s n e i g v p h =
    let (r', q, a) = push_payload_lem src r seg x s v p h in
    (r', segment_received-place r seg x s n e i v.output.valid g ∙ q, a)
