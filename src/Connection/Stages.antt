-- ===== src/Connection/Stages.antt =====
-- What the stages of accept_segment of libsponge/tcp_connection.cc do to the queues of a connection.
use cs144_me.Prelude.{
  ◌≡◌, refl, sym, ap, ◌∙◌, Bool, true, false, ◌&&◌, ◌||◌, List, [], ◌∷◌, ◌++◌, map, append-nil,
  append_assoc, ltb, ◌==◌, if◌then◌else◌, arith,
}
use mathlib.Core.Path.{subst}
use cs144_me.Prelude.Result.{Result, ok, ◌>>=◌, IfOk, IfOk-bind, any_ok, if-both}
use cs144_me.Header.Tcp.{TcpSegment, length_in_sequence_space}
use cs144_me.Receiver
use cs144_me.Receiver.{TcpReceiver, window_size}
use cs144_me.Sender
use cs144_me.Sender.{TcpSender, fill_window, ack_received, is_empty, segment_of, send_empty_segment}
use cs144_me.Sender.Queue.{Made, fill_window-Made, Dropped, ack_received-Dropped}
use cs144_me.TcpState
use cs144_me.Connection.{
  TcpConnection, stamp, seg_2_seg, fill, accept_segment, take_ack, answer_syn, answer, fin_pending,
  is_keep_alive,
}

-- The empty segment that answers when one is owed and there is nothing else to send.
abbrev pub answers : Bool → List TcpSegment → TcpSender → List TcpSegment
answers owed new s = if owed && is_empty new then segment_of s false false [] ∷ [] else []

-- The outstanding segments have lost some at the front and got new ones at the end. Nothing waits in
-- the sender, and the queue has grown by all the new ones, or by an answer, with what the receiver now
-- acknowledges.
pub record Flushed (owes : TcpConnection → Bool) (c c' : TcpConnection) : Type 0 where
  pub gone : List TcpSegment
  pub left : List TcpSegment
  pub new : List TcpSegment
  pub before : c.sender.outstandings ≡ gone ++ left
  pub after : c'.sender.outstandings ≡ left ++ new
  pub empty : c'.sender.segments_out ≡ []
  pub grown :
      c'.segments_out
      ≡ c.segments_out
        ++ map
            (stamp (Receiver.ackno c'.receiver) (window_size c'.receiver))
            (new ++ answers (owes c') new c'.sender)

-- The same before the segments are moved.
pub record Stage (c c' : TcpConnection) : Type 0 where
  pub gone : List TcpSegment
  pub left : List TcpSegment
  pub new : List TcpSegment
  pub before : c.sender.outstandings ≡ gone ++ left
  pub after : c'.sender.outstandings ≡ left ++ new
  pub queued : c'.sender.segments_out ≡ new
  pub kept : c'.segments_out ≡ c.segments_out

pub start-Stage :
    (c c' : TcpConnection)
    → c'.sender.outstandings ≡ c.sender.outstandings
    → c'.sender.segments_out ≡ []
    → c'.segments_out ≡ c.segments_out
    → Stage c c'
start-Stage c c' o e k = record {
  gone = [];
  left = c.sender.outstandings;
  new = [];
  before = refl;
  after = o ∙ sym (append-nil c.sender.outstandings);
  queued = e;
  kept = k;
}

pub fill-Stage : (c c' : TcpConnection) → Stage c c' → IfOk (Stage c) (fill c')
fill-Stage c c' v =
    IfOk-bind (Made c'.sender) (Stage c) (fill_window c'.sender) _ (fill_window-Made c'.sender)
      (λ s p. record {
        gone = v.gone;
        left = v.left;
        new = v.new ++ p.new;
        before = v.before;
        after = p.outstanding ∙ rw v.after (append_assoc v.left v.new p.new);
        queued = p.queued ∙ ap (λ l. l ++ p.new) v.queued;
        kept = v.kept;
      })

take_ack-Stage :
    (c c' : TcpConnection) (seg : TcpSegment)
    → c'.sender.outstandings ≡ c.sender.outstandings
    → c'.sender.segments_out ≡ []
    → c'.segments_out ≡ c.segments_out
    → IfOk (Stage c) (take_ack c' seg.header)
unfolding take_ack
take_ack-Stage c c' seg o e k =
    if-both (IfOk (Stage c)) seg.header.ack _ (ok c')
      (fill-Stage c (record c' { sender = ack_received c'.sender seg.header.ackno seg.header.win })
        (record {
          gone = d.gone;
          left = (ack_received c'.sender seg.header.ackno seg.header.win).outstandings;
          new = [];
          before = sym o ∙ d.outstanding;
          after =
              sym
                (append-nil (ack_received c'.sender seg.header.ackno seg.header.win).outstandings);
          queued = d.queued ∙ e;
          kept = k;
        }))
      (start-Stage c c' o e k)
  where
    d : Dropped c'.sender (ack_received c'.sender seg.header.ackno seg.header.win)
    d = ack_received-Dropped c'.sender seg.header.ackno seg.header.win

answer_syn-Stage : (c c' : TcpConnection) → Stage c c' → IfOk (Stage c) (answer_syn c')
unfolding answer_syn
answer_syn-Stage c c' v =
    if-both (IfOk (Stage c))
      (c'.sender.next_seqno == 0 && TcpState.has_value (Receiver.ackno c'.receiver)) _ (ok c')
      (fill-Stage c c' v) v

-- The connection with other segments in the sender's queue.
abbrev queuing : TcpConnection → List TcpSegment → TcpConnection
queuing c out = record c { sender = record (c.sender) { segments_out = out } }

-- The two answers of accept_segment come to at most one.
answer_lem :
    (c : TcpConnection) (new : List TcpSegment) (a b : Bool)
    → c.sender.segments_out ≡ new
    → let d = if a then answer c else c in
      (if b then answer d else d) ≡ queuing c (new ++ answers (a || b) new c.sender)
unfolding answer send_empty_segment
answer_lem c [] true true e = rw e refl
answer_lem c [] true false e = rw e refl
answer_lem c [] false true e = rw e refl
answer_lem c [] false false e = ap (queuing c) e
answer_lem c (x ∷ new) true true e = rw (e, append-nil new) refl
answer_lem c (x ∷ new) true false e = rw (e, append-nil new) refl
answer_lem c (x ∷ new) false true e = rw (e, append-nil new) refl
answer_lem c (x ∷ new) false false e = rw (append-nil new) (ap (queuing c) e)

-- Does a segment that is accepted want an answer: does it occupy numbers, or is it a keep-alive?
abbrev pub owed : TcpSegment → TcpConnection → Bool
owed seg c = ltb 0 (length_in_sequence_space seg) || is_keep_alive (Receiver.ackno c.receiver) seg

-- The stages of accept_segment.
abbrev first : TcpConnection → TcpSegment → TcpConnection
first c seg = if seg.header.fin && fin_pending c.sender then record c { linger = false } else c

abbrev last_steps : TcpSegment → TcpConnection → Result TcpConnection
last_steps seg c3 =
    let c4 : TcpConnection = if ltb 0 (length_in_sequence_space seg) then answer c3 else c3 in
    ok (seg_2_seg (if is_keep_alive (Receiver.ackno c4.receiver) seg then answer c4 else c4))

answer-receiver : (c : TcpConnection) (a : Bool) → (if a then answer c else c).receiver ≡ c.receiver
unfolding answer
answer-receiver c a = ground arith

answered_lem :
    (c : TcpConnection) (new : List TcpSegment) (seg : TcpSegment)
    → c.sender.segments_out ≡ new
    → last_steps seg c ≡ ok (seg_2_seg (queuing c (new ++ answers (owed seg c) new c.sender)))
answered_lem c new seg e =
    let a = ltb 0 (length_in_sequence_space seg) in
    ap
      (λ r. ok (
        seg_2_seg (
          let d : TcpConnection = if a then answer c else c in
          if is_keep_alive (Receiver.ackno r) seg then answer d else d)))
      (answer-receiver c a)
    ∙ ap (λ d. ok (seg_2_seg d))
        (answer_lem c new a (is_keep_alive (Receiver.ackno c.receiver) seg) e)

last-Flushed :
    (c c3 : TcpConnection) (seg : TcpSegment)
    → Stage c c3
    → IfOk (Flushed (owed seg) c) (last_steps seg c3)
unfolding seg_2_seg Sender.next_seqno
last-Flushed c c3 seg v =
    subst (IfOk (Flushed (owed seg) c)) (sym (answered_lem c3 v.new seg v.queued)) (record {
      gone = v.gone;
      left = v.left;
      new = v.new;
      before = v.before;
      after = v.after;
      empty = refl;
      grown = rw (v.kept) refl;
    })

pub accept_segment-Flushed :
    (c : TcpConnection) (seg : TcpSegment)
    → c.sender.segments_out ≡ []
    → IfOk (Flushed (owed seg) c) (accept_segment c seg)
unfolding accept_segment
accept_segment-Flushed c seg e =
    IfOk-bind (λ r. Unit) (Flushed (owed seg) c)
      (Receiver.segment_received (first c seg).receiver seg)
      (λ r. take_ack (record (first c seg) { receiver = r }) seg.header >>= λ c2.
        answer_syn c2 >>= last_steps seg)
      (any_ok (Receiver.segment_received (first c seg).receiver seg))
      (λ r u.
        IfOk-bind (Stage c) (Flushed (owed seg) c)
          (take_ack (record (first c seg) { receiver = r }) seg.header)
          (λ c2. answer_syn c2 >>= last_steps seg)
          (take_ack-Stage c (record (first c seg) { receiver = r }) seg
            (ap (λ s. s.outstandings) same) (ap (λ s. s.segments_out) same ∙ e) queue)
          (λ c2 v2.
            IfOk-bind (Stage c) (Flushed (owed seg) c) (answer_syn c2) (last_steps seg)
              (answer_syn-Stage c c2 v2) (λ c3 v3. last-Flushed c c3 seg v3)))
  where
    same : (first c seg).sender ≡ c.sender
    same = ground arith

    queue : (first c seg).segments_out ≡ c.segments_out
    queue = ground arith
