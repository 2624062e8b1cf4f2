-- ===== src/Tests/Copy.antt =====
-- apps/bidirectional_stream_copy.cc at a concrete input.
use cs144_me.Prelude.{ℕ, ◌≡◌, refl, Bool, true, some, List, [], ◌∷◌, arith}
use cs144_me.Prelude.Result.{Result, ok, throw, IfOk}
use cs144_me.ByteStream
use cs144_me.FileDescriptor
use cs144_me.Buffer.BufferViewList
use cs144_me.EventLoop
use cs144_me.StreamCopy
use cs144_me.EventLoop.{Poll, Revents, no_revents}
use cs144_me.StreamCopy.{Answers, Copy, bidirectional_stream_copy}
use cs144_me.StreamCopy.Copies.{IsCopy, bidirectional_stream_copy-IsCopy}

abbrev answers : Answers
answers = record {
  typed = some 2;
  arrived = some 1;
  to_socket = λ i m. some m;
  to_output = λ i m. some m;
}

-- Standard input is readable, and then the socket can be written.
abbrev rounds : List (Poll × Answers)
rounds =
    (
      Poll.ready
          (record no_revents { readable = true } ∷ no_revents ∷ no_revents ∷ no_revents ∷ []),
      answers,
    )
    ∷ (
      Poll.ready
          (no_revents ∷ record no_revents { writable = true } ∷ no_revents ∷ no_revents ∷ []),
      answers,
    )
    ∷ []

bidirectional_stream_copy-IsCopy_example :
    IfOk
      (λ x. IsCopy (1 ∷ 2 ∷ 3 ∷ []) (9 ∷ []) x.1)
      (bidirectional_stream_copy (1 ∷ 2 ∷ 3 ∷ []) (9 ∷ []) answers rounds)
bidirectional_stream_copy-IsCopy_example =
    bidirectional_stream_copy-IsCopy (1 ∷ 2 ∷ 3 ∷ []) (9 ∷ []) answers rounds (omega arith)
      (omega arith)

abbrev sent_in : Result (Bool × Copy) → List ℕ
sent_in (throw e) = []
sent_in (ok (returned, s)) = s.sent

-- Two bytes are typed and sent.
copied : sent_in (bidirectional_stream_copy (1 ∷ 2 ∷ 3 ∷ []) (9 ∷ []) answers rounds) ≡ 1 ∷ 2 ∷ []
unfolding bidirectional_stream_copy StreamCopy.copy_loop StreamCopy.rules StreamCopy.start
    StreamCopy.wants_input StreamCopy.wants_socket_out StreamCopy.wants_socket_in
    StreamCopy.wants_output StreamCopy.on_input StreamCopy.on_socket_out StreamCopy.pull
    StreamCopy.push EventLoop.wait_next_event EventLoop.set_up EventLoop.is_finished
    EventLoop.after_poll EventLoop.dispatch EventLoop.serve EventLoop.service_count ByteStream.new
    ByteStream.error ByteStream.remaining_capacity ByteStream.buffer_size ByteStream.buffer_empty
    ByteStream.eof ByteStream.input_ended ByteStream.write ByteStream.peek_output
    ByteStream.pop_output ByteStream.substr FileDescriptor.read FileDescriptor.read_answer
    FileDescriptor.register_read FileDescriptor.register_write FileDescriptor.write
    FileDescriptor.write_loop FileDescriptor.write_round FileDescriptor.system_call
    BufferViewList.size BufferViewList.remove_prefix BufferViewList.as_iovecs
copied = refl
