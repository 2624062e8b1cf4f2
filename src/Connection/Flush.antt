-- ===== src/Connection/Flush.antt =====
-- What the calls of TCPConnection of libsponge/tcp_connection.cc do to its queue of segments.
use cs144_me.Prelude.{
  ℕ, ◌≡◌, refl, sym, ap, ◌∙◌, Bool, true, false, not, ◌&&◌, List, [], ◌++◌, map, append-nil, ◌==◌,
  if◌then◌else◌,
}
use cs144_me.Prelude.Result.{Result, ok, throw, ◌>>=◌, IfOk, IfOk-bind}
use cs144_me.Header.Tcp.{TcpSegment}
use cs144_me.Receiver
use cs144_me.Receiver.{TcpReceiver, window_size}
use cs144_me.ByteStream
use cs144_me.ByteStream.{ByteStream}
use cs144_me.Connection.{
  TcpConnection, stamp, seg_2_seg, fill, accept_segment, segment_received, write, end_input_stream,
  connect, fail_streams,
}
use cs144_me.Connection.Stages.{
  Flushed, Stage, accept_segment-Flushed, answers, fill-Stage, owed, start-Stage,
}

-- A call of the owner of the connection, but tick.
pub data Call : Type 0 where
  receive : TcpSegment → Call
  put : List ℕ → Call
  close : Call
  start : Call

unfoldable pub step : TcpConnection → Call → Result TcpConnection
step c (receive seg) = segment_received c seg
step c (put bytes) = write c bytes >>= λ r. ok r.1
step c close = end_input_stream c
step c start = connect c

-- Is an answer due after a call? A segment is accepted unless it acknowledges something before the
-- connection has sent anything, or resets.
abbrev pub due : TcpConnection → Call → TcpConnection → Bool
due c (receive seg) c' =
    not (c.sender.next_seqno == 0 && seg.header.ack) && (not seg.header.rst && owed seg c')
due c _ c' = false

-- The same for answers that are owed alike.
due-Flushed :
    (f g : TcpConnection → Bool) (c c' : TcpConnection)
    → f c' ≡ g c'
    → Flushed f c c'
    → Flushed g c c'
due-Flushed f g c c' h v = record {
  gone = v.gone;
  left = v.left;
  new = v.new;
  before = v.before;
  after = v.after;
  empty = v.empty;
  grown =
      v.grown
      ∙ ap
          (λ b.
            c.segments_out
            ++ map (stamp (Receiver.ackno c'.receiver) (window_size c'.receiver))
                (v.new ++ answers b v.new c'.sender))
          h;
}

-- A call that leaves both queues as they are.
unchanged-Flushed :
    (owes : TcpConnection → Bool) (c c' : TcpConnection)
    → owes c' ≡ false
    → c'.sender.segments_out ≡ []
    → c'.sender.outstandings ≡ c.sender.outstandings
    → c'.segments_out ≡ c.segments_out
    → Flushed owes c c'
unchanged-Flushed owes c c' h e o k = record {
  gone = [];
  left = c.sender.outstandings;
  new = [];
  before = refl;
  after = o ∙ sym (append-nil c.sender.outstandings);
  empty = e;
  grown = k ∙ rw h (sym (append-nil c.segments_out));
}

-- A call that only fills the window and moves what that makes.
moved-Flushed :
    (owes : TcpConnection → Bool) (c c' : TcpConnection)
    → owes (seg_2_seg c') ≡ false
    → Stage c c'
    → Flushed owes c (seg_2_seg c')
unfolding seg_2_seg
moved-Flushed owes c c' h v = record {
  gone = v.gone;
  left = v.left;
  new = v.new;
  before = v.before;
  after = v.after;
  empty = refl;
  grown = rw (h, v.kept, v.queued, append-nil v.new) refl;
}

filled-Flushed :
    (owes : TcpConnection → Bool) (c c' : TcpConnection)
    → ((x : TcpConnection) → owes x ≡ false)
    → Stage c c'
    → IfOk (Flushed owes c) (fill c' >>= λ x. ok (seg_2_seg x))
filled-Flushed owes c c' h v =
    IfOk-bind (Stage c) (Flushed owes c) (fill c') (λ x. ok (seg_2_seg x)) (fill-Stage c c' v)
      (λ x k. moved-Flushed owes c x (h (seg_2_seg x)) k)

receive-Flushed :
    (c : TcpConnection) (seg : TcpSegment)
    → c.sender.segments_out ≡ []
    → IfOk (Flushed (due c (receive seg)) c) (segment_received c seg)
unfolding segment_received
receive-Flushed c seg e =
    branches (c.sender.next_seqno == 0 && seg.header.ack) seg.header.rst refl refl
  where
    c0 : TcpConnection
    c0 = record c { time_since_last_segment_received = 0 }

    accepted :
        ((x : TcpConnection) → owed seg x ≡ due c (receive seg) x)
        → (m : Result TcpConnection) → IfOk (Flushed (owed seg) c0) m
        → IfOk (Flushed (due c (receive seg)) c) m
    accepted h (ok c') v = due-Flushed (owed seg) (due c (receive seg)) c c' (h c') (record {
      gone = v.gone;
      left = v.left;
      new = v.new;
      before = v.before;
      after = v.after;
      empty = v.empty;
      grown = v.grown;
    })
    accepted h (throw x) v = tt

    reset : TcpConnection
    reset = record (fail_streams c0) { active = false; linger = false }

    branches :
        (a b : Bool)
        → (c.sender.next_seqno == 0 && seg.header.ack) ≡ a
        → seg.header.rst ≡ b
        → IfOk
            (Flushed (due c (receive seg)) c)
            (if a then ok c0 else if b then ok reset else accept_segment c0 seg)
    branches true b h k =
        unchanged-Flushed (due c (receive seg)) c c0
          (ap (λ x. not x && (not seg.header.rst && owed seg c0)) h) e refl refl
    branches false true h k =
        unchanged-Flushed (due c (receive seg)) c reset
          (ap (λ x. not (c.sender.next_seqno == 0 && seg.header.ack) && (not x && owed seg reset)) k
            ∙ ap (λ x. not x && false) h)
          e refl refl
    branches false false h k =
        accepted
          (λ x. sym (
            ap (λ y. not y && (not seg.header.rst && owed seg x)) h
            ∙ ap (λ y. not y && owed seg x) k))
          (accept_segment c0 seg) (accept_segment-Flushed c0 seg e)

put-Flushed :
    (c : TcpConnection) (bytes : List ℕ)
    → c.sender.segments_out ≡ []
    → IfOk (Flushed (due c (put bytes)) c) (write c bytes >>= λ r. ok r.1)
unfolding write
put-Flushed c bytes e = after (fill c0) (fill-Stage c c0 (start-Stage c c0 refl e refl))
  where
    written : ℕ × ByteStream
    written = ByteStream.write c.sender.stream bytes

    c0 : TcpConnection
    c0 = record c { sender = record (c.sender) { stream = written.1 } }

    pack : TcpConnection → Result (ℕ × TcpConnection)
    pack c' = ok (written.0, seg_2_seg c')

    after :
        (m : Result TcpConnection)
        → IfOk (Stage c) m
        → IfOk (Flushed (due c (put bytes)) c) ((m >>= pack) >>= λ r. ok r.1)
    after (ok c') k = moved-Flushed (due c (put bytes)) c c' refl k
    after (throw x) k = tt

-- Any call but tick, on a connection whose sender has no segment waiting. Unless it throws, the
-- outstanding segments of the sender have lost some at the front and got some new ones at the end, and
-- no segment waits in the sender. The connection's queue has grown by exactly the new ones, in order,
-- or, if there are none and the call is a segment that is accepted and occupies numbers or is a
-- keep-alive, by one empty segment with the sender's next number; each carries what the receiver
-- acknowledges after the call and its window, if it acknowledges anything.
pub step-Flushed :
    (c : TcpConnection) (call : Call)
    → c.sender.segments_out ≡ []
    → IfOk (Flushed (due c call) c) (step c call)
unfolding step end_input_stream connect
step-Flushed c (receive seg) e = receive-Flushed c seg e
step-Flushed c (put bytes) e = put-Flushed c bytes e
step-Flushed c close e = filled-Flushed (due c close) c _ (λ x. refl) (start-Stage c _ refl e refl)
step-Flushed c start e = filled-Flushed (due c start) c c (λ x. refl) (start-Stage c c refl e refl)
