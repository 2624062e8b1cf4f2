-- ===== src/SpongeSocket/Loop.antt =====
-- _tcp_loop of libsponge/tcp_helpers/tcp_sponge_socket.cc, and connect, listen_and_accept and _tcp_main
-- with it.
use cs144_me.Prelude.{ℕ, Bool, true, false, ◌||◌, Option, List, [], ◌∷◌, if◌then◌else◌}
use cs144_me.Prelude.Result.{Result, ok, ◌>>=◌}
use cs144_me.EventLoop.{Rule, Direction, Poll, is_exit, wait_next_event}
use cs144_me.Connection.{TcpConfig, TcpConnection}
use cs144_me.Adapter.{FdAdapter, FdAdapterConfig}
use cs144_me.SpongeSocket.{TcpSpongeSocket, AdapterCalls, pass}
use cs144_me.SpongeSocket.Rules.{Answers, datagram_rule, outbound_rule, inbound_rule, segments_rule}
use cs144_me.SpongeSocket.Start.{connect, listen_and_accept, is_connecting, is_accepting}

-- One round of the loop: what poll finds, what the system calls answer, whether the other thread has
-- set _abort, and the milliseconds since the last tick.
pub record Round (P : Type 0) : Type 0 where
  pub poll : Poll
  pub answers : Answers P
  pub abort : Bool
  pub elapsed : ℕ

-- The socket, with the answers of the round.
abbrev pub Looping : Type 0 → Type 0 → Type 0
Looping A P = Answers P × TcpSpongeSocket A P

-- A rule whose calls are answered by those of the round.
abbrev pub answered :
    {A P : Type 0} → Direction → (Answers P → Rule (TcpSpongeSocket A P)) → Rule (Looping A P)
answered direction rule = record {
  fd = λ x. (rule x.0).fd x.1;
  direction = direction;
  callback = λ x. (do s ← (rule x.0).callback x.1; ok (x.0, s));
  interest = λ x. (rule x.0).interest x.1;
  cancel = λ x. (do s ← (rule x.0).cancel x.1; ok (x.0, s));
}

module _ {A P : Type 0} (adapter : FdAdapter A P) (calls : AdapterCalls P) where
  unfoldable pub loop_rules : List (Rule (Looping A P))
  loop_rules =
      answered Direction.in_dir (datagram_rule adapter calls)
      ∷ answered Direction.in_dir (outbound_rule adapter calls)
      ∷ answered Direction.out_dir (inbound_rule adapter calls)
      ∷ answered Direction.out_dir (segments_rule adapter calls)
      ∷ []

  -- For as many rounds as the system answers: has the loop ended, the rules left, and the socket.
  unfoldable pub tcp_loop :
      (TcpSpongeSocket A P → Bool)
      → List (Round P)
      → List (Rule (Looping A P))
      → TcpSpongeSocket A P
      → Result (Bool × List (Rule (Looping A P)) × TcpSpongeSocket A P)
  tcp_loop condition [] left s = ok (false, left, s)
  tcp_loop condition (r ∷ rounds) left s =
      let round = (do
        (outcome, left', x) ← wait_next_event (r.answers, s) left r.poll
        let rest = tcp_loop condition rounds left' (pass adapter calls r.elapsed x.1)
        if is_exit outcome || r.abort then ok (true, left', x.1) else rest) in
      if condition s then round else ok (true, left, s)

  -- connect and listen_and_accept, up to the start of the thread.
  unfoldable pub connect_and_loop :
      Option TcpConnection
      → TcpConfig
      → FdAdapterConfig
      → List (Round P)
      → TcpSpongeSocket A P
      → Result (Bool × List (Rule (Looping A P)) × TcpSpongeSocket A P)
  connect_and_loop old c_tcp c_ad rounds s = do
    s' ← connect adapter old c_tcp c_ad s
    tcp_loop (is_connecting adapter) rounds loop_rules s'

  unfoldable pub listen_and_loop :
      Option TcpConnection
      → TcpConfig
      → FdAdapterConfig
      → List (Round P)
      → TcpSpongeSocket A P
      → Result (Bool × List (Rule (Looping A P)) × TcpSpongeSocket A P)
  listen_and_loop old c_tcp c_ad rounds s = do
    s' ← listen_and_accept adapter old c_tcp c_ad s
    tcp_loop (is_accepting adapter) rounds loop_rules s'

  -- The loop of the thread, with the rules that are left.
  unfoldable pub main_loop :
      List (Round P)
      → List (Rule (Looping A P))
      → TcpSpongeSocket A P
      → Result (Bool × List (Rule (Looping A P)) × TcpSpongeSocket A P)
  main_loop rounds left s = tcp_loop (λ s. true) rounds left s
