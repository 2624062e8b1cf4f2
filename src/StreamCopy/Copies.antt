-- ===== src/StreamCopy/Copies.antt =====
-- The whole of apps/bidirectional_stream_copy.cc: what comes out is what went in.
use cs144_me.Prelude.{ℕ, ◌^◌, ◌<◌, refl, Bool, true, List, [], ◌∷◌, ◌++◌, length, arith}
use cs144_me.Prelude.Result.{IfOk, IfOk-bind, if-both}
use cs144_me.ByteStream
use cs144_me.ByteStream.{ByteStream}
use cs144_me.ByteStream.Inv.{new-IsValid}
use cs144_me.FileDescriptor.{FileDescriptor}
use cs144_me.EventLoop.{Rule, is_exit, Poll, wait_next_event}
use cs144_me.EventLoop.Keep.{Keeps, After, wait_next_event-Keeps}
use cs144_me.Channel.Carry.{All}
use cs144_me.StreamCopy.{
  Copy, Answers, start, buffer_size, pull, push, on_input, on_socket_out, on_socket_in, on_output,
  end_outbound, end_inbound, input_rule, socket_out_rule, socket_in_rule, output_rule, rules,
  copy_loop, bidirectional_stream_copy,
}
use cs144_me.StreamCopy.Flows.{IsFlow, pull-IsFlow, push-IsFlow, end-IsFlow}

-- Each direction is a flow: the bytes taken at one end, those in the stream, and those still to come
-- at the other end are all the bytes there are, in order.
pub record IsCopy (stdin peer : List ℕ) (s : Copy) : Type 0 where
  pub outbound : IsFlow stdin s.sent s.outbound s.stdin
  pub inbound : IsFlow peer s.printed s.inbound s.peer

module _ (stdin peer : List ℕ) (few : length stdin < 2 ^ 31) (few' : length peer < 2 ^ 31) where
  input_rule-Keeps : Keeps (IsCopy stdin peer) input_rule
  unfolding on_input end_outbound
  input_rule-Keeps = record {
    callback = λ s v.
        IfOk-bind (λ (x : List ℕ × FileDescriptor × ByteStream). IsFlow stdin s.sent x.2 x.0)
          (IsCopy stdin peer) (pull s.answers.typed s.stdin s.input s.outbound) _
          (pull-IsFlow s.answers.typed s.stdin s.input s.outbound few v.outbound)
          (λ x f. record { outbound = f; inbound = v.inbound });
    cancel = λ s v. record { outbound = end-IsFlow true v.outbound; inbound = v.inbound };
  }

  socket_in_rule-Keeps : Keeps (IsCopy stdin peer) socket_in_rule
  unfolding on_socket_in end_inbound
  socket_in_rule-Keeps = record {
    callback = λ s v.
        IfOk-bind (λ (x : List ℕ × FileDescriptor × ByteStream). IsFlow peer s.printed x.2 x.0)
          (IsCopy stdin peer) (pull s.answers.arrived s.peer s.socket s.inbound) _
          (pull-IsFlow s.answers.arrived s.peer s.socket s.inbound few' v.inbound)
          (λ x f. record { outbound = v.outbound; inbound = f });
    cancel = λ s v. record { outbound = v.outbound; inbound = end-IsFlow true v.inbound };
  }

  socket_out_rule-Keeps : Keeps (IsCopy stdin peer) socket_out_rule
  unfolding on_socket_out end_outbound
  socket_out_rule-Keeps = record {
    callback = λ s v.
        IfOk-bind
          (λ (x : List ℕ × FileDescriptor × ByteStream). IsFlow stdin (s.sent ++ x.0) x.2 s.stdin)
          (IsCopy stdin peer) (push s.answers.to_socket s.socket s.outbound) _
          (push-IsFlow s.answers.to_socket s.socket s.outbound v.outbound)
          (λ x f. record { outbound = f; inbound = v.inbound });
    cancel = λ s v. record { outbound = end-IsFlow true v.outbound; inbound = v.inbound };
  }

  output_rule-Keeps : Keeps (IsCopy stdin peer) output_rule
  unfolding on_output end_inbound
  output_rule-Keeps = record {
    callback = λ s v.
        IfOk-bind
          (λ (x : List ℕ × FileDescriptor × ByteStream). IsFlow peer (s.printed ++ x.0) x.2 s.peer)
          (IsCopy stdin peer) (push s.answers.to_output s.output s.inbound) _
          (push-IsFlow s.answers.to_output s.output s.inbound v.inbound)
          (λ x f. record { outbound = v.outbound; inbound = f });
    cancel = λ s v. record { outbound = v.outbound; inbound = end-IsFlow true v.inbound };
  }

  rules-Keeps : All (Keeps (IsCopy stdin peer)) rules
  unfolding rules
  rules-Keeps =
      (input_rule-Keeps, (socket_out_rule-Keeps, (socket_in_rule-Keeps, (output_rule-Keeps, tt))))

  copy_loop-IsCopy :
      (rounds : List (Poll × Answers)) (left : List (Rule Copy)) (s : Copy)
      → All (Keeps (IsCopy stdin peer)) left
      → IsCopy stdin peer s
      → IfOk (λ (x : Bool × Copy). IsCopy stdin peer x.1) (copy_loop rounds left s)
  unfolding copy_loop
  copy_loop-IsCopy [] left s k v = v
  copy_loop-IsCopy ((poll, answers) ∷ rounds) left s k v =
      IfOk-bind (After (IsCopy stdin peer)) (λ (x : Bool × Copy). IsCopy stdin peer x.1)
        (wait_next_event (record s { answers = answers }) left poll) _
        (wait_next_event-Keeps (IsCopy stdin peer) left (record s { answers = answers }) poll k
          (record { outbound = v.outbound; inbound = v.inbound }))
        (λ x f.
          if-both (IfOk (λ (x : Bool × Copy). IsCopy stdin peer x.1)) (is_exit x.0) _ _ f.1
            (copy_loop-IsCopy rounds x.1 x.2 f.0 f.1))

-- Take the bytes that come from standard input and from the peer, fewer than 2 ^ 31 each, and any
-- rounds of the loop: what poll finds, how many bytes each read gets, what each write takes, and
-- errors of the system calls, which end the program. Unless it ends by an exception, at any time the
-- bytes that the socket has taken, those in the outbound stream, and those still to come from standard
-- input are together all the bytes of standard input, in order; and so it is for the bytes printed,
-- the inbound stream and the peer: nothing is lost, repeated or out of order.
pub bidirectional_stream_copy-IsCopy :
    (stdin peer : List ℕ) (answers : Answers) (rounds : List (Poll × Answers))
    → length stdin < 2 ^ 31
    → length peer < 2 ^ 31
    → IfOk (λ x. IsCopy stdin peer x.1) (bidirectional_stream_copy stdin peer answers rounds)
unfolding bidirectional_stream_copy start ByteStream.new
bidirectional_stream_copy-IsCopy stdin peer answers rounds few few' =
    copy_loop-IsCopy stdin peer few few' rounds rules (start stdin peer answers)
      (rules-Keeps stdin peer few few')
      (record {
        outbound = record {
          valid = new-IsValid buffer_size (omega arith);
          read = refl;
          whole = refl;
        };
        inbound = record {
          valid = new-IsValid buffer_size (omega arith);
          read = refl;
          whole = refl;
        };
      })
